-- ===== src/Builders/Routing.antt =====
-- The ingress routes to a port that the service of the telemetry server has.
use Prim.Native.String.{◌++◌}
use mathlib.Core.Option
use text.Mathlib.TextLemmas.{cons-append}
use telemetry_operator.Base.{
  ◌≡◌, refl, String, Bool, true, false, not, Option, none, some, List, [], ◌∷◌, is_zero_ℤ, arith,
  if◌then◌else◌, ◌||◌, is_some, ◌==◌, if_intro, ◌&&◌, ap, ◌∙◌,
}
use telemetry_operator.Base.Map.{lookup, lookup-insert}
use telemetry_operator.Base.Text.{starts_with_slash}
use telemetry_operator.Base.Predicates.{IfSome}
use telemetry_operator.Kube.{Kube, StringMap}
use telemetry_operator.Cluster.{Server, History}
use telemetry_operator.ConfigEnvs.{ConfigEnvs}
use telemetry_operator.Api.Telemetry.{Telemetry, TelemetrySpec, IngressSpec}
use telemetry_operator.Objects.{ServicePort, Service, IngressRule, Ingress}
use telemetry_operator.Validate.{validate_telemetry, returned}
use telemetry_operator.Validate.Validated.{PortsReady, validate_telemetry-PortsReady}
use telemetry_operator.Builders.Front.{
  service_ports, telemetry_service, telemetry_ingress_v1, telemetry_ingress_v1_beta1, ingress_port,
  rooted, class_annotation, port_if, bare_ingress, ingress_v1, ingress_v1_beta1,
}

-- The first port of a name.
unfoldable pub port_named : String → List ServicePort → Option ServicePort
port_named name [] = none
port_named name (p ∷ ports) = if p.name == name then some p else port_named name ports

-- The class that a rule names.
abbrev pub class_of : Ingress → Option String
class_of i = elim i.spec [ none ↦ none | some r ↦ r.class_name ]

-- The rule without its class.
abbrev pub without_class : IngressRule → IngressRule
without_class r = record r { class_name = none }

-- What an ingress rule needs of the service: its name, a path from the root, and that the port it
-- names is there with a number.
pub record Served (s : Service) (r : IngressRule) : Type 0 where
  pub same_service : r.service_name ≡ s.meta.name
  pub path : starts_with_slash r.path ≡ true
  pub port : ServicePort
  pub found : port_named r.service_port s.ports ≡ some port
  pub numbered : is_zero_ℤ port.port ≡ false

rooted_lem : (path : String) → starts_with_slash (rooted path) ≡ true
rooted_lem path =
    if_intro (λ p. starts_with_slash p ≡ true) (starts_with_slash path) path ("/" ++ path)
      (λ rooted_already. rooted_already) (λ _. rw cons-append refl)

-- The ports of the service, by what is enabled.
ports_of :
    (http_disabled grpc_disabled : Bool)
    → ServicePort
    → ServicePort
    → ServicePort
    → Bool
    → List ServicePort
ports_of http_disabled grpc_disabled http grpc https numbered =
    port_if (not http_disabled) http (port_if (not grpc_disabled) grpc (port_if numbered https []))

abbrev Open : Bool → List ServicePort → Type 0
Open http_disabled ports =
    (p : ServicePort) × (port_named (ingress_port http_disabled) ports ≡ some p)
    × (is_zero_ℤ p.port ≡ false)

ports_of-Open :
    (http_disabled grpc_disabled : Bool) (http grpc https : ServicePort)
    → http.name ≡ "http"
    → grpc.name ≡ "grpc"
    → https.name ≡ "https"
    → is_zero_ℤ http.port ≡ false
    → (not http_disabled || not (is_zero_ℤ https.port)) ≡ true
    → Open http_disabled
        (ports_of http_disabled grpc_disabled http grpc https (not (is_zero_ℤ https.port)))
unfolding port_named ports_of
ports_of-Open false g http grpc https a b c h k = (http, rw a refl, h)
ports_of-Open true false http grpc https a b c h k =
    let there : is_zero_ℤ https.port ≡ false = ground arith in
    (https, rw (b, there) (rw c refl), there)
ports_of-Open true true http grpc https a b c h k =
    let there : is_zero_ℤ https.port ≡ false = ground arith in (https, rw there (rw c refl), there)

-- The port that the ingress names is one of the service's.
service_ports-Open :
    (K : Kube) (spec : TelemetrySpec K)
    → PortsReady spec
    → Open spec.http_disabled (service_ports K spec)
unfolding service_ports ports_of
service_ports-Open K spec ready =
    ports_of-Open spec.http_disabled spec.grpc.disabled _ _ _ refl refl refl ready.http
      (ground (arith, ready.https))

served :
    (K : Kube) (cr : Telemetry K) (i : IngressSpec)
    → PortsReady cr.spec
    → IfSome (Served (telemetry_service K cr)) (ingress_v1 K cr i).spec
      × IfSome (Served (telemetry_service K cr)) (ingress_v1_beta1 K cr i).spec
unfolding telemetry_service
served K cr i ready =
    let (port, found, numbered) = service_ports-Open K cr.spec ready in
    (
      record {
        same_service = refl;
        path = rooted_lem i.path;
        port = port;
        found = found;
        numbered = numbered;
      },
      record {
        same_service = refl;
        path = rooted_lem i.path;
        port = port;
        found = found;
        numbered = numbered;
      },
    )

every_ingress-Served :
    (K : Kube) (s : Service) (cr : Telemetry K) (o : Option IngressSpec)
    → ((i : IngressSpec)
        → IfSome (Served s) (ingress_v1 K cr i).spec
          × IfSome (Served s) (ingress_v1_beta1 K cr i).spec)
    → IfSome
        (Served s)
        (Ingress.spec (elim o [ none ↦ bare_ingress K cr | some i ↦ ingress_v1 K cr i ]))
      × IfSome
          (Served s)
          (Ingress.spec (elim o [ none ↦ bare_ingress K cr | some i ↦ ingress_v1_beta1 K cr i ]))
every_ingress-Served K s cr none h = (tt, tt)
every_ingress-Served K s cr (some i) h = h i

-- After validateTelemetry, each rule of the ingress (in both of its API versions) names the service
-- of the telemetry server, has a path from the root, and names a port of that service whose number
-- is not zero.
pub telemetry_ingress-Served :
    (K : Kube) (server : Server K) (cr cr' : Telemetry K) (envs : ConfigEnvs) (history : History K)
    → (validate_telemetry server cr envs history).0 ≡ returned cr'
    → IfSome (Served (telemetry_service K cr')) (telemetry_ingress_v1 K cr').spec
      × IfSome (Served (telemetry_service K cr')) (telemetry_ingress_v1_beta1 K cr').spec
unfolding telemetry_ingress_v1 telemetry_ingress_v1_beta1
telemetry_ingress-Served K server cr cr' envs history e =
    let ready = validate_telemetry-PortsReady server cr cr' envs history e in
    every_ingress-Served K (telemetry_service K cr') cr' cr'.spec.ingress
      (λ i. served K cr' i ready)

class_annotation_lem :
    (key : String) (class_name : Option String) (annotations : StringMap)
    → lookup key (class_annotation class_name annotations) ≡ (
        if "kubernetes.io/ingress.class" == key && is_some class_name
        then class_name
        else lookup key annotations)
class_annotation_lem key none annotations = ground arith
class_annotation_lem key (some c) annotations =
    ground (arith, lookup-insert "kubernetes.io/ingress.class" key c annotations)

-- The older version of an ingress: the class has gone from the rule to the annotations.
abbrev pub with_annotated_class : Ingress → Ingress
with_annotated_class i = record {
  meta = record i.meta { annotations = class_annotation (class_of i) i.meta.annotations };
  spec = Option.map without_class i.spec;
}

-- Both versions' ingress for one section of the custom resource.
same_ingress :
    (K : Kube) (cr : Telemetry K) (o : Option IngressSpec) (v1 v1_beta1 : Ingress)
    → v1 ≡ (elim o [ none ↦ bare_ingress K cr | some i ↦ ingress_v1 K cr i ])
    → v1_beta1 ≡ (elim o [ none ↦ bare_ingress K cr | some i ↦ ingress_v1_beta1 K cr i ])
    → v1_beta1 ≡ with_annotated_class v1
same_ingress K cr none v1 v1_beta1 e f = rw (e, f) refl
same_ingress K cr (some i) v1 v1_beta1 e f = rw (e, f) refl

-- The ingress of the older API version is that of the newer one, name, namespace, labels, host, path,
-- path type, backend and TLS section included, except that its rule has no class, and that its
-- annotations have the newer one's class, if it has one, under "kubernetes.io/ingress.class".
pub telemetry_ingress-same :
    (K : Kube) (cr : Telemetry K) (key : String)
    → (telemetry_ingress_v1_beta1 K cr ≡ with_annotated_class (telemetry_ingress_v1 K cr))
      × (lookup key (telemetry_ingress_v1_beta1 K cr).meta.annotations ≡ (
          if "kubernetes.io/ingress.class" == key && is_some (class_of (telemetry_ingress_v1 K cr))
          then class_of (telemetry_ingress_v1 K cr)
          else lookup key (telemetry_ingress_v1 K cr).meta.annotations))
unfolding telemetry_ingress_v1 telemetry_ingress_v1_beta1
telemetry_ingress-same K cr key =
    let same : telemetry_ingress_v1_beta1 K cr ≡ with_annotated_class (telemetry_ingress_v1 K cr) =
      same_ingress K cr cr.spec.ingress _ _ refl refl in
    (
      same,
      ap (λ i. lookup key i.meta.annotations) same
          ∙ class_annotation_lem key (class_of (telemetry_ingress_v1 K cr))
              (telemetry_ingress_v1 K cr).meta.annotations,
    )
