-- ===== src/Cluster.antt =====
-- The API server, which the operator talks to through sigs.k8s.io/controller-runtime (not part of
-- the repository): the requests that the operator makes, and the server's replies as a parameter.
use telemetry_operator.Base.{ℕ, String, Bool, Option, List}
use telemetry_operator.Kube.{Kube, StringMap}
use telemetry_operator.Api.Telemetry.{Telemetry, TelemetryStatus}
use telemetry_operator.Objects.{
  ObjectMeta, Service, PersistentVolumeClaim, Deployment, DaemonSet, StatefulSet, ConfigMap,
  ServiceAccount, Role, RoleBinding, Ingress,
}

-- What CreateOrUpdate is asked to bring about.
pub data Object (K : Kube) : Type 0 where
  deployment : Deployment K → Object K
  daemon_set : DaemonSet K → Object K
  stateful_set : StatefulSet K → Object K
  service : Service → Object K
  claim : PersistentVolumeClaim K → Object K
  config_map : ConfigMap → Object K
  -- the keys that the secret must have, and the length of a generated value
  secret : ObjectMeta → List String → ℕ → Object K
  service_account : ServiceAccount → Object K
  role : Role → Object K
  role_binding : RoleBinding → Object K
  cluster_role : Role → Object K
  cluster_role_binding : RoleBinding → Object K
  ingress_v1 : Ingress → Object K
  ingress_v1beta1 : Ingress → Object K

pub data Request (K : Kube) : Type 0 where
  get_telemetry : String → String → Request K
  get_secret : String → String → Request K
  -- the object, and whether it is to outlive the custom resource (no controller reference)
  create_or_update : Object K → Bool → Request K
  delete : Object K → Request K
  -- of the namespace and the name; the server takes the status alone from the resource that is sent
  update_status : String → String → TelemetryStatus → Request K

-- The requests made so far, the latest first.
abbrev pub History : Kube → Type 0
History K = List (Request K)

pub data Fetched (K : Kube) : Type 0 where
  found : Telemetry K → Fetched K
  not_found : Fetched K
  failed : String → Fetched K

-- A value or the text of an error.
pub data Result {ℓ} (A : Type ℓ) : Type ℓ where
  ok : A → Result A
  err : String → Result A

-- The replies, by the namespace and the name that are asked for. They may depend on all requests
-- made before, so that the server's state may change between two of them.
pub record Server (K : Kube) : Type 0 where
  pub telemetry : History K → String → String → Fetched K
  -- the data of a secret
  pub secret_data : History K → String → String → Result StringMap
  -- samlsp.ParseMetadata of github.com/crewjam/saml: the error's text, if there is one
  pub metadata_error : String → Option String
  -- The order in which the loop of validateTelemetry ranges over a map from secrets to keys.
  pub range_order : List (String × List String) → List (String × List String)
