-- ===== src/Reconcile/Requests.antt =====
-- controller/controller.go: the CreateOrUpdate functions as the requests that they make. What the
-- closures change in the object that the cluster has is in Apply.
use telemetry_operator.Base.{ℕ, String, Bool, true, false, List, [], ◌∷◌, ◌==◌, if◌then◌else◌}
use telemetry_operator.Kube.{Kube}
use telemetry_operator.Api.Telemetry.{Telemetry}
use telemetry_operator.Objects.{
  Service, PersistentVolumeClaim, Deployment, DaemonSet, StatefulSet, ConfigMap, Role, RoleBinding,
}
use telemetry_operator.Cluster as C
use telemetry_operator.Cluster.{Object, Request}
use telemetry_operator.Builders.Front.{telemetry_ingress_v1, telemetry_ingress_v1_beta1}
use telemetry_operator.Builders.Rights.{service_account, openshift_scc_role_binding}

module _ {K : Kube} where
  -- CreateOrUpdate
  abbrev pub create_or_update : Object K → Bool → Bool → List (Request K)
  create_or_update obj delete retain =
      (if delete then C.delete obj else C.create_or_update obj retain) ∷ []

  abbrev pub create_or_update_config_map : ConfigMap → List (Request K)
  create_or_update_config_map cm = create_or_update (C.config_map cm) false false

  abbrev pub create_or_update_deployment : Deployment K → List (Request K)
  create_or_update_deployment d = create_or_update (C.deployment d) false false

  abbrev pub create_or_update_daemon_set : DaemonSet K → List (Request K)
  create_or_update_daemon_set ds = create_or_update (C.daemon_set ds) false false

  abbrev pub create_or_update_stateful_set : StatefulSet K → List (Request K)
  create_or_update_stateful_set ss = create_or_update (C.stateful_set ss) false false

  -- CreateOrUpdatePVC: a claim whose policy is "Retain" outlives the custom resource.
  abbrev pub create_or_update_pvc : PersistentVolumeClaim K → String → List (Request K)
  create_or_update_pvc pvc reclaim_policy =
      create_or_update (C.claim pvc) false (reclaim_policy == "Retain")

  abbrev pub create_or_update_service : Service → List (Request K)
  create_or_update_service s = create_or_update (C.service s) false false

  abbrev pub create_or_update_role : Role → List (Request K)
  create_or_update_role role = create_or_update (C.role role) false false

  abbrev pub create_or_update_cluster_role : Role → List (Request K)
  create_or_update_cluster_role role = create_or_update (C.cluster_role role) false true

  abbrev pub create_or_update_cluster_role_binding : RoleBinding → List (Request K)
  create_or_update_cluster_role_binding b = create_or_update (C.cluster_role_binding b) false true

module _ (K : Kube) where
  -- CreateOrUpdateSecret
  unfoldable pub create_or_update_secret :
      Telemetry K → String → List String → ℕ → Bool → List (Request K)
  create_or_update_secret cr name [] length retain = []
  create_or_update_secret cr name (key ∷ keys) length retain =
      create_or_update
        (C.secret (record { name = name; namespace = cr.namespace; labels = []; annotations = [] })
          (key ∷ keys) length)
        false retain

  -- CreateOrUpdateServiceAccount: the account, and its right to the security context constraint.
  unfoldable pub create_or_update_service_account : Telemetry K → String → String → List (Request K)
  unfolding service_account openshift_scc_role_binding
  create_or_update_service_account cr component scc =
      C.create_or_update (C.service_account (service_account K cr component)) false
      ∷ C.create_or_update (C.role_binding (openshift_scc_role_binding K cr component scc)) false
      ∷ []

  -- CreateOrUpdateIngress, with CreateOrUpdateIngressV1 and CreateOrUpdateIngressV1Beta1
  unfoldable pub create_or_update_ingress : String → Telemetry K → Bool → List (Request K)
  unfolding telemetry_ingress_v1 telemetry_ingress_v1_beta1
  create_or_update_ingress ingress_api_version cr delete =
      if ingress_api_version == "networking.k8s.io/v1"
      then create_or_update (C.ingress_v1 (telemetry_ingress_v1 K cr)) delete false
      else create_or_update (C.ingress_v1beta1 (telemetry_ingress_v1_beta1 K cr)) delete false
