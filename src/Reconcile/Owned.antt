-- ===== src/Reconcile/Owned.antt =====
-- What belongs to a resource: the objects that its reconciliation may ask for or delete.
use Prim.Native.String.{◌++◌}
use telemetry_operator.Base.{◌≡◌, String, Bool, true, false, is_some}
use telemetry_operator.Kube.{Kube}
use telemetry_operator.Api.Telemetry.{Telemetry}
use telemetry_operator.Objects.{ObjectMeta}
use telemetry_operator.Cluster as C
use telemetry_operator.Cluster.{
  Object, Request, History, get_telemetry, get_secret, create_or_update, delete, update_status,
}
use telemetry_operator.Reconcile.Ready.{At}
use telemetry_operator.Reconcile.Since.{Relation}

abbrev InNamespace : String → ObjectMeta → Type 0
InNamespace namespace meta = meta.namespace ≡ namespace

abbrev OfCluster : String → ObjectMeta → Bool → Type 0
OfCluster name meta retain = (meta.name ≡ name ++ "-cluster-agent") × (retain ≡ true)

-- Of the resource the namespace, the name, and whether an ingress is wanted.
module _ {K : Kube} (namespace name : String) (wanted : Bool) where
  -- An object stands in the resource's namespace, and, claims and secrets apart, goes with it; the
  -- two objects of the whole cluster carry its name, and stay.
  abbrev pub ObjectOf : Object K → Bool → Type 0
  ObjectOf (C.deployment d) retain = InNamespace namespace d.meta × (retain ≡ false)
  ObjectOf (C.daemon_set d) retain = InNamespace namespace d.meta × (retain ≡ false)
  ObjectOf (C.stateful_set s) retain = InNamespace namespace s.meta × (retain ≡ false)
  ObjectOf (C.service s) retain = InNamespace namespace s.meta × (retain ≡ false)
  ObjectOf (C.claim c) retain = InNamespace namespace c.meta
  ObjectOf (C.config_map m) retain = InNamespace namespace m.meta × (retain ≡ false)
  ObjectOf (C.secret meta keys length) retain = InNamespace namespace meta
  ObjectOf (C.service_account a) retain = InNamespace namespace a.meta × (retain ≡ false)
  ObjectOf (C.role r) retain = InNamespace namespace r.meta × (retain ≡ false)
  ObjectOf (C.role_binding b) retain = InNamespace namespace b.meta × (retain ≡ false)
  ObjectOf (C.cluster_role r) retain = OfCluster name r.meta retain
  ObjectOf (C.cluster_role_binding b) retain = OfCluster name b.meta retain
  ObjectOf (C.ingress_v1 i) retain = InNamespace namespace i.meta × (retain ≡ false)
  ObjectOf (C.ingress_v1beta1 i) retain = InNamespace namespace i.meta × (retain ≡ false)

  -- What may be deleted: the server's deployment of earlier versions, and an ingress that is not
  -- wanted.
  abbrev pub DeletableOf : Object K → Type 0
  DeletableOf (C.deployment d) = At d.meta namespace (name ++ "-telemetry")
  DeletableOf (C.ingress_v1 i) = At i.meta namespace name × (wanted ≡ false)
  DeletableOf (C.ingress_v1beta1 i) = At i.meta namespace name × (wanted ≡ false)
  DeletableOf object = ⊥

  abbrev pub OwnedRequest : Relation K
  OwnedRequest (get_telemetry space called) h = ⊥
  OwnedRequest (get_secret space called) h = space ≡ namespace
  OwnedRequest (create_or_update object retain) h = ObjectOf object retain
  OwnedRequest (delete object) h = DeletableOf object
  OwnedRequest (update_status space called status) h = (space ≡ namespace) × (called ≡ name)

module _ {K : Kube} (cr : Telemetry K) where
  abbrev pub Here : ObjectMeta → Type 0
  Here meta = meta.namespace ≡ cr.namespace

  abbrev pub OwnedObject : Object K → Bool → Type 0
  OwnedObject = ObjectOf cr.namespace cr.name (is_some cr.spec.ingress)

  abbrev pub Deletable : Object K → Type 0
  Deletable = DeletableOf cr.namespace cr.name (is_some cr.spec.ingress)

  abbrev pub Owned : Relation K
  Owned = OwnedRequest cr.namespace cr.name (is_some cr.spec.ingress)
