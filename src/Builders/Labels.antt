-- ===== src/Builders/Labels.antt =====
-- controller/controller.go: what the objects of all components share.
use telemetry_operator.Base.{
  ℤ, pos, ℕ, zero, suc, String, true, Option, List, [], ◌∷◌, is_zero_ℤ, if◌then◌else◌,
}
use telemetry_operator.Kube.{Kube, StringMap}
use telemetry_operator.Api.Telemetry.{Telemetry}
use telemetry_operator.Objects.{ObjectMeta, ServicePort, PersistentVolumeClaim, PodSecurityContext}

-- Labels: a Go map of three keys
abbrev pub labels : (K : Kube) → Telemetry K → String → StringMap
labels K cr component =
    ("app.kubernetes.io/managed-by", "telemetry-operator")
    ∷ ("app.kubernetes.io/part-of", cr.name)
    ∷ ("app.kubernetes.io/component", component)
    ∷ []

abbrev pub non_root_security_context : PodSecurityContext
non_root_security_context = record {
  run_as_non_root = true;
  run_as_user = pos 65534;
  run_as_group = pos 65534;
  fs_group = pos 65534;
}

-- A port of a service with the target port of its own name and no node port.
abbrev pub tcp_port : String → ℤ → ServicePort
tcp_port name port = record {
  name = name;
  protocol = "TCP";
  port = port;
  target_port = name;
  node_port = pos 0;
}

-- The metadata of an object of a component, without annotations.
abbrev pub meta_of : (K : Kube) → Telemetry K → String → String → ObjectMeta
meta_of K cr name component = record {
  name = name;
  namespace = cr.namespace;
  labels = labels K cr component;
  annotations = [];
}

-- if n == 0 { n = 1 }
abbrev pub one_if_zero : ℤ → ℤ
one_if_zero z = if is_zero_ℤ z then pos 1 else z

-- start, start + 1, ...: the values of the loop variable in n rounds.
unfoldable pub count_up : ℕ → ℕ → List ℕ
count_up start zero = []
count_up start (suc n) = start ∷ count_up (suc start) n

-- A claim of one round of a loop over the replicas.
abbrev pub claim_of :
    (K : Kube)
    → Telemetry K
    → String
    → StringMap
    → K.Quantity
    → Option String
    → String
    → PersistentVolumeClaim K
claim_of K cr component annotations size class_name name = record {
  meta = record (meta_of K cr name component) { annotations = annotations };
  spec = record {
    access_modes = "ReadWriteOnce" ∷ [];
    storage = size;
    storage_class_name = class_name;
  };
}
