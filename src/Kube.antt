-- ===== src/Kube.antt =====
-- The types of the Kubernetes API that the repository's own types mention (k8s.io/api and
-- k8s.io/apimachinery, which are not part of the repository). What the code only hands on, or uses
-- through its methods, is a field of the parameter `Kube`; a struct whose fields the code reads or
-- writes by name is a record of these fields.
use telemetry_operator.Base.{String, Bool, Option, none, List, [], if◌then◌else◌}

-- Go's map[string]string: an association list. Absent and empty maps are both [].
abbrev pub StringMap : Type 0
StringMap = List (String × String)

pub record Kube : Type 1 where
  -- resource.Quantity: its zero value, IsZero, String, ParseQuantity with the error ignored, and
  -- whether
  -- a.Cmp(b) >= 0 and a.Cmp(b) > 0
  pub Quantity : Type 0
  pub zero_quantity : Quantity
  pub is_zero : Quantity → Bool
  pub parse_quantity : String → Quantity
  pub quantity_string : Quantity → String
  pub cmp_ge : Quantity → Quantity → Bool
  pub cmp_gt : Quantity → Quantity → Bool
  pub Affinity : Type 0
  pub Toleration : Type 0
  -- corev1.Toleration{Operator: corev1.TolerationOpExists}
  pub tolerate_all : Toleration
  -- appsv1.DaemonSetUpdateStrategy
  pub UpdateStrategy : Type 0
  pub zero_update_strategy : UpdateStrategy
  -- metav1.Duration
  pub Duration : Type 0
  -- what an EnvVarSource may hold beside a secret's key and a field of the pod
  pub EnvSource : Type 0
  -- what ResourceRequirements holds beside requests and limits
  pub ResourceClaim : Type 0

pub record LocalObjectReference : Type 0 where
  pub name : String

-- corev1.SecretKeySelector, with the Name of its embedded LocalObjectReference
pub record SecretKeySelector : Type 0 where
  pub name : String
  pub key : String

pub data EnvVarSource (K : Kube) : Type 0 where
  secret_key_ref : SecretKeySelector → EnvVarSource K
  field_ref : String → EnvVarSource K
  other_source : K.EnvSource → EnvVarSource K

pub record EnvVar (K : Kube) : Type 0 where
  pub name : String
  pub value : String
  pub value_from : Option (EnvVarSource K)

-- corev1.ResourceList: quantities by resource name; `none` is the nil map
abbrev pub ResourceList : Kube → Type 0
ResourceList K = Option (List (String × K.Quantity))

pub record ResourceRequirements (K : Kube) : Type 0 where
  pub requests : ResourceList K
  pub limits : ResourceList K
  pub claims : List K.ResourceClaim

abbrev pub zero_resource_requirements : (K : Kube) → ResourceRequirements K
zero_resource_requirements K = record { requests = none; limits = none; claims = [] }

-- networkingv1.IngressTLS
pub record IngressTls : Type 0 where
  pub hosts : List String
  pub secret_name : String

-- A size, or a default in place of zero (controller/telemetry.go and the other builders, which
-- ignore the error of resource.ParseQuantity).
unfoldable pub or_default : (K : Kube) → K.Quantity → String → K.Quantity
or_default K q default = if K.is_zero q then K.parse_quantity default else q
