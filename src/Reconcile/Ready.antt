-- ===== src/Reconcile/Ready.antt =====
-- What an object needs to have been asked for before it: the service account and the volumes of its
-- pods, the claims of a stateful set's replicas, what a binding binds, the service of an ingress.
use Prim.Native.String.{◌++◌}
use mathlib.Core.List.{Memᴰ}
use telemetry_operator.Base.{◌≡◌, ℕ, ◌<◌, String, Bool, true, false, rounds}
use telemetry_operator.Base.Predicates.{All, IfSome}
use telemetry_operator.Base.Text.{show}
use telemetry_operator.Kube.{Kube}
use telemetry_operator.Objects.{
  ObjectMeta, VolumeSource, config_map, persistent_volume_claim, PodTemplate, StatefulSet,
  ConfigMap, PersistentVolumeClaim, ServiceAccount, Role, Service,
}
use telemetry_operator.Cluster as C
use telemetry_operator.Cluster.{Object, Request, History, create_or_update}
use telemetry_operator.Reconcile.Since.{Relation, Extends}

abbrev pub At : ObjectMeta → String → String → Type 0
At meta namespace name = (meta.namespace ≡ namespace) × (meta.name ≡ name)

module _ {K : Kube} (h : History K) where
  -- An object of the cluster's was asked for.
  abbrev pub Asked : Object K → Bool → Type 0
  Asked o retain = Memᴰ (create_or_update o retain) h

  abbrev pub HasAccount : String → String → Type 0
  HasAccount namespace name =
      (a : ServiceAccount) × Asked (C.service_account a) false × At a.meta namespace name

  abbrev pub HasClaim : String → String → Type 0
  HasClaim namespace name =
      (c : PersistentVolumeClaim K) × (retain : Bool) × Asked (C.claim c) retain
      × At c.meta namespace name

  abbrev pub HasConfigMap : String → String → Type 0
  HasConfigMap namespace name =
      (m : ConfigMap) × Asked (C.config_map m) false × At m.meta namespace name

  abbrev pub HasRole : String → String → Type 0
  HasRole namespace name = (r : Role) × Asked (C.role r) false × At r.meta namespace name

  abbrev pub HasClusterRole : String → Type 0
  HasClusterRole name = (r : Role) × Asked (C.cluster_role r) true × (r.meta.name ≡ name)

  abbrev pub HasService : String → String → Type 0
  HasService namespace name = (s : Service) × Asked (C.service s) false × At s.meta namespace name

  abbrev pub HasSource : String → VolumeSource → Type 0
  HasSource namespace (config_map name) = HasConfigMap namespace name
  HasSource namespace (persistent_volume_claim name) = HasClaim namespace name
  HasSource namespace source = Unit

  abbrev pub PodReady : String → PodTemplate K → Type 0
  PodReady namespace t =
      HasAccount namespace t.service_account_name
      × All (λ v. HasSource namespace v.source) t.volumes

  -- For every replica the claims that its pod will look for.
  abbrev pub ClaimsReady : StatefulSet K → Type 0
  ClaimsReady s =
      (i : ℕ)
      → i < rounds s.replicas
      → All (λ t. HasClaim s.meta.namespace (t.meta.name ++ "-" ++ s.meta.name ++ "-" ++ show i))
          s.volume_claim_templates

-- What an object needs of the requests before it.
abbrev pub ObjectReady : {K : Kube} → Object K → History K → Type 0
ObjectReady (C.deployment d) h = IfSome (PodReady h d.meta.namespace) d.template
ObjectReady (C.daemon_set d) h = PodReady h d.meta.namespace d.template
ObjectReady (C.stateful_set s) h = PodReady h s.meta.namespace s.template × ClaimsReady h s
ObjectReady (C.role_binding b) h =
    All (λ s. HasAccount h s.namespace s.name) b.subjects
    × HasRole h b.meta.namespace b.role_ref.name
ObjectReady (C.cluster_role_binding b) h =
    All (λ s. HasAccount h s.namespace s.name) b.subjects × HasClusterRole h b.role_ref.name
ObjectReady (C.ingress_v1 i) h = IfSome (λ r. HasService h i.meta.namespace r.service_name) i.spec
ObjectReady (C.ingress_v1beta1 i) h =
    IfSome (λ r. HasService h i.meta.namespace r.service_name) i.spec
ObjectReady object h = Unit

abbrev pub Ready : {K : Kube} → Relation K
Ready (create_or_update object retain) h = ObjectReady object h
Ready request h = Unit

-- What was asked for stays asked for.
module _ {K : Kube} {h h' : History K} (x : Extends h h') (namespace name : String) where
  pub keeps_account : HasAccount h namespace name → HasAccount h' namespace name
  keeps_account (a, m, at) = (a, x _ m, at)

  pub keeps_claim : HasClaim h namespace name → HasClaim h' namespace name
  keeps_claim (c, retain, m, at) = (c, retain, x _ m, at)

  pub keeps_role : HasRole h namespace name → HasRole h' namespace name
  keeps_role (r, m, at) = (r, x _ m, at)
