-- ===== src/Objects.antt =====
-- The cluster's objects that the operator asks for: of each Kubernetes type the fields that the
-- repository's composite literals name (k8s.io/api is not part of the repository).
use telemetry_operator.Base.{ℤ, String, Bool, Option, List}
use telemetry_operator.Kube.{
  Kube, StringMap, LocalObjectReference, EnvVar, ResourceRequirements, IngressTls,
}

pub record ObjectMeta : Type 0 where
  pub name : String
  pub namespace : String
  pub labels : StringMap
  pub annotations : StringMap

-- corev1.ServicePort; the target port is always a name
pub record ServicePort : Type 0 where
  pub name : String
  pub protocol : String
  pub port : ℤ
  pub target_port : String
  pub node_port : ℤ

pub record Service : Type 0 where
  pub meta : ObjectMeta
  pub selector : StringMap
  pub cluster_ip : String
  pub type : String
  pub publish_not_ready_addresses : Bool
  pub ports : List ServicePort

-- corev1.PersistentVolumeClaimSpec; of the requests the code sets and reads the storage alone
pub record ClaimSpec (K : Kube) : Type 0 where
  pub access_modes : List String
  pub storage : K.Quantity
  pub storage_class_name : Option String

pub record PersistentVolumeClaim (K : Kube) : Type 0 where
  pub meta : ObjectMeta
  pub spec : ClaimSpec K

pub record ContainerPort : Type 0 where
  pub name : String
  pub container_port : ℤ
  pub protocol : String

pub record VolumeMount : Type 0 where
  pub name : String
  pub mount_path : String
  pub read_only : Bool

-- corev1.KeyToPath
pub record KeyToPath : Type 0 where
  pub key : String
  pub path : String

-- corev1.SecretProjection: the secret's name and its items
pub record SecretItems : Type 0 where
  pub secret_name : String
  pub items : List KeyToPath

pub data VolumeSource : Type 0 where
  config_map : String → VolumeSource
  projected : List SecretItems → VolumeSource
  secret : SecretItems → VolumeSource
  host_path : String → VolumeSource
  persistent_volume_claim : String → VolumeSource
  empty_dir : VolumeSource

pub record Volume : Type 0 where
  pub name : String
  pub source : VolumeSource

-- corev1.Probe with an HTTPGet handler
pub record Probe : Type 0 where
  pub path : String
  pub port : String
  pub scheme : String
  pub timeout_seconds : ℤ

pub record Container (K : Kube) : Type 0 where
  pub name : String
  pub image : String
  pub image_pull_policy : String
  pub command : List String
  pub args : List String
  pub privileged : Bool
  pub env : List (EnvVar K)
  pub ports : List ContainerPort
  pub volume_mounts : List VolumeMount
  pub resources : ResourceRequirements K
  pub readiness_probe : Option Probe

-- corev1.PodSecurityContext
pub record PodSecurityContext : Type 0 where
  pub run_as_non_root : Bool
  pub run_as_user : ℤ
  pub run_as_group : ℤ
  pub fs_group : ℤ

-- corev1.PodTemplateSpec with its PodSpec
pub record PodTemplate (K : Kube) : Type 0 where
  pub labels : StringMap
  pub annotations : StringMap
  pub service_account_name : String
  pub security_context : Option PodSecurityContext
  pub host_pid : Bool
  pub priority_class_name : String
  pub node_selector : StringMap
  pub affinity : Option K.Affinity
  pub tolerations : List K.Toleration
  pub image_pull_secrets : List LocalObjectReference
  pub init_containers : List (Container K)
  pub containers : List (Container K)
  pub volumes : List Volume

pub record Deployment (K : Kube) : Type 0 where
  pub meta : ObjectMeta
  pub match_labels : StringMap
  pub strategy : String
  -- `none` in the bare object that is only named, to be deleted
  pub template : Option (PodTemplate K)

pub record DaemonSet (K : Kube) : Type 0 where
  pub meta : ObjectMeta
  pub match_labels : StringMap
  pub update_strategy : K.UpdateStrategy
  pub template : PodTemplate K

pub record StatefulSet (K : Kube) : Type 0 where
  pub meta : ObjectMeta
  pub match_labels : StringMap
  pub replicas : ℤ
  pub service_name : String
  pub volume_claim_templates : List (PersistentVolumeClaim K)
  pub template : PodTemplate K

pub record ConfigMap : Type 0 where
  pub meta : ObjectMeta
  pub binary_data : StringMap

pub record ServiceAccount : Type 0 where
  pub meta : ObjectMeta

-- rbacv1.PolicyRule
pub record PolicyRule : Type 0 where
  pub api_groups : List String
  pub resources : List String
  pub resource_names : List String
  pub verbs : List String

-- rbacv1.Role and ClusterRole (which has no namespace)
pub record Role : Type 0 where
  pub meta : ObjectMeta
  pub rules : List PolicyRule

-- rbacv1.Subject
pub record Subject : Type 0 where
  pub kind : String
  pub name : String
  pub namespace : String

-- rbacv1.RoleRef
pub record RoleRef : Type 0 where
  pub api_group : String
  pub kind : String
  pub name : String

-- rbacv1.RoleBinding and ClusterRoleBinding
pub record RoleBinding : Type 0 where
  pub meta : ObjectMeta
  pub subjects : List Subject
  pub role_ref : RoleRef

-- Both Ingress types: one rule with one path, whose backend is a service's named port. The
-- class is a field of networking.k8s.io/v1 alone.
pub record IngressRule : Type 0 where
  pub class_name : Option String
  pub host : String
  pub path : String
  pub path_type : String
  pub service_name : String
  pub service_port : String
  pub tls : List IngressTls

pub record Ingress : Type 0 where
  pub meta : ObjectMeta
  -- `none` in the bare object that is only named, to be deleted
  pub spec : Option IngressRule
