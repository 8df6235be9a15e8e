-- ===== src/Reconcile/Operator.antt =====
-- The life of the operator: calls of Reconcile one after the other, and restarts. Of the cluster its
-- roles are here, which no owner removes with the custom resource; the server is taken to do what it
-- is asked for.
use Prim.Native.String.{◌++◌}
use telemetry_operator.Base.{
  ◌≡◌, String, true, false, List, [], ◌∷◌, ◌==◌, Option, none, some, if◌then◌else◌,
}
use telemetry_operator.Kube.{Kube}
use telemetry_operator.Cluster as C
use telemetry_operator.Cluster.{
  Server, Request, History, Fetched, found, not_found, failed, create_or_update, delete,
}
use telemetry_operator.Validate.Returns.{has_selectors}
use telemetry_operator.Builders.Access.{names}
use telemetry_operator.Reconcile.{Key}
use telemetry_operator.Reconcile.Calls.{Environment}
use telemetry_operator.Reconcile.Loop.{Reconciler, reconcile}

unfoldable pub without : String → List String → List String
without r [] = []
without r (s ∷ l) = let rest = without r l in if s == r then rest else s ∷ rest

-- The name of an object that is a cluster role.
abbrev pub role_name : {K : Kube} → C.Object K → Option String
role_name (C.cluster_role r) = some r.meta.name
role_name object = none

abbrev pub with_role : Option String → List String → List String
with_role none roles = roles
with_role (some r) roles = r ∷ roles

abbrev pub without_role : Option String → List String → List String
without_role none roles = roles
without_role (some r) roles = without r roles

-- The names of the cluster roles after a request.
abbrev pub served : {K : Kube} → Request K → List String → List String
served (create_or_update object retain) roles = with_role (role_name object) roles
served (delete object) roles = without_role (role_name object) roles
served request roles = roles

-- The names of the cluster's roles, from those that were there before the requests.
unfoldable pub roles_after : {K : Kube} → List String → History K → List String
roles_after roles [] = roles
roles_after roles (q ∷ history) = served q (roles_after roles history)

-- The reconciler, and all requests made so far.
pub record State (K : Kube) : Type 0 where
  pub reconciler : Reconciler
  pub history : History K

abbrev pub idle : Reconciler
idle = record { instances = []; deployment_deleted = false }

-- The server replies with the resource that it is asked for, and the TLS section of that resource
-- names both secrets, or it has none.
abbrev pub Sound : {K : Kube} → Key → Fetched K → Type 0
Sound req (found cr) =
    (cr.namespace ≡ req.0) × (cr.name ≡ req.1) × (has_selectors cr.spec.tls ≡ true)
Sound req not_found = Unit
Sound req (failed e) = Unit

-- One call of Reconcile, or a restart of the operator, which forgets the instances. The environment
-- and the server may change between two calls.
pub data Step (K : Kube) : State K → State K → Type 0 where
  called :
      (env : Environment K) (server : Server K) (req : Key) (s : State K)
      → Sound req (server.telemetry s.history req.0 req.1)
      → Step K s (record {
        reconciler = (reconcile K env server req s.reconciler s.history).reconciler;
        history = (reconcile K env server req s.reconciler s.history).history;
      })
  restarted : (s : State K) → Step K s (record { reconciler = idle; history = s.history })

pub data Reachable (K : Kube) : State K → Type 0 where
  start : Reachable K (record { reconciler = idle; history = [] })
  step : {s t : State K} → Reachable K s → Step K s t → Reachable K t

-- The cluster role of a resource's cluster agent is there.
abbrev pub HasRole : List String → Key → Type 0
HasRole roles k = names (k.1 ++ "-cluster-agent") roles ≡ true
