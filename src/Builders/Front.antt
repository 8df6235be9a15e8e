-- ===== src/Builders/Front.antt =====
-- controller/telemetry.go: the service, the volume claims and the ingress of the telemetry server.
use Prim.Native.String.{◌++◌}
use telemetry_operator.Base.{
  String, Bool, not, Option, none, some, List, [], ◌∷◌, is_zero_ℤ, rounds, if◌then◌else◌, map,
}
use telemetry_operator.Base.Map.{insert}
use telemetry_operator.Base.Text.{show, starts_with_slash}
use telemetry_operator.Kube.{Kube, StringMap, IngressTls, or_default}
use telemetry_operator.Api.Telemetry.{Telemetry, TelemetrySpec, IngressSpec}
use telemetry_operator.Objects.{ServicePort, Service, PersistentVolumeClaim, Ingress}
use telemetry_operator.Builders.Labels.{labels, meta_of, one_if_zero, count_up, claim_of}

-- append(ports, port), where the guard holds
abbrev pub port_if : Bool → ServicePort → List ServicePort → List ServicePort
port_if b port rest = if b then port ∷ rest else rest

-- The ports of telemetryService.
unfoldable pub service_ports : (K : Kube) → TelemetrySpec K → List ServicePort
service_ports K spec =
    port_if (not spec.http_disabled)
      (record {
        name = "http";
        protocol = "TCP";
        port = spec.service.port;
        target_port = "http";
        node_port = spec.service.node_port;
      })
      (port_if (not spec.grpc.disabled)
        (record {
          name = "grpc";
          protocol = "TCP";
          port = spec.service.grpc_port;
          target_port = "grpc";
          node_port = spec.service.grpc_node_port;
        })
        (port_if (not (is_zero_ℤ spec.service.https_port))
          (record {
            name = "https";
            protocol = "TCP";
            port = spec.service.https_port;
            target_port = "https";
            node_port = spec.service.https_node_port;
          })
          []))

-- telemetryService
unfoldable pub telemetry_service : (K : Kube) → Telemetry K → Service
unfolding service_ports
telemetry_service K cr = record {
  meta = record (meta_of K cr (cr.name ++ "-telemetry") "telemetry") {
    annotations = cr.spec.service.annotations;
  };
  selector = labels K cr "telemetry";
  cluster_ip = "";
  type = cr.spec.service.type;
  publish_not_ready_addresses = Bool.false;
  ports = service_ports K cr.spec;
}

-- telemetryPVCs
unfoldable pub telemetry_pvcs : (K : Kube) → Telemetry K → List (PersistentVolumeClaim K)
telemetry_pvcs K cr =
    map
      (λ replica.
        claim_of K cr "telemetry" cr.spec.storage.annotations
          (or_default K cr.spec.storage.size "10Gi") cr.spec.storage.class_name
          ("data-" ++ cr.name ++ "-telemetry-" ++ show replica))
      (count_up 0 (rounds (one_if_zero cr.spec.replicas)))

-- The path of the rule starts with a slash.
abbrev pub rooted : String → String
rooted path = if starts_with_slash path then path else "/" ++ path

abbrev pub ingress_port : Bool → String
ingress_port http_disabled = if http_disabled then "https" else "http"

abbrev pub tls_list : Option IngressTls → List IngressTls
tls_list none = []
tls_list (some tls) = tls ∷ []

-- The body of telemetryIngressV1 where an ingress is asked for.
abbrev pub ingress_v1 : (K : Kube) → Telemetry K → IngressSpec → Ingress
ingress_v1 K cr i = record {
  meta = record (meta_of K cr cr.name "ingress") { annotations = i.annotations };
  spec = some (record {
    class_name = i.class_name;
    host = i.host;
    path = rooted i.path;
    path_type = "Prefix";
    service_name = cr.name ++ "-telemetry";
    service_port = ingress_port cr.spec.http_disabled;
    tls = tls_list i.tls;
  });
}

-- The ingress before the custom resource's section is read.
abbrev pub bare_ingress : (K : Kube) → Telemetry K → Ingress
bare_ingress K cr = record { meta = meta_of K cr cr.name "ingress"; spec = none }

-- telemetryIngressV1
unfoldable pub telemetry_ingress_v1 : (K : Kube) → Telemetry K → Ingress
telemetry_ingress_v1 K cr = elim cr.spec.ingress [
  | none ↦ bare_ingress K cr
  | some i ↦ ingress_v1 K cr i
]

-- The class of networking.k8s.io/v1beta1 is an annotation.
abbrev pub class_annotation : Option String → StringMap → StringMap
class_annotation none annotations = annotations
class_annotation (some c) annotations = insert "kubernetes.io/ingress.class" c annotations

-- The body of telemetryIngressV1Beta1 where an ingress is asked for.
abbrev pub ingress_v1_beta1 : (K : Kube) → Telemetry K → IngressSpec → Ingress
ingress_v1_beta1 K cr i = record {
  meta = record (meta_of K cr cr.name "ingress") {
    annotations = class_annotation i.class_name i.annotations;
  };
  spec = some (record {
    class_name = none;
    host = i.host;
    path = rooted i.path;
    path_type = "Prefix";
    service_name = cr.name ++ "-telemetry";
    service_port = ingress_port cr.spec.http_disabled;
    tls = tls_list i.tls;
  });
}

-- telemetryIngressV1Beta1
unfoldable pub telemetry_ingress_v1_beta1 : (K : Kube) → Telemetry K → Ingress
telemetry_ingress_v1_beta1 K cr = elim cr.spec.ingress [
  | none ↦ bare_ingress K cr
  | some i ↦ ingress_v1_beta1 K cr i
]
