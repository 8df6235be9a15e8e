-- ===== src/Reconcile.antt =====
-- controller/controller.go, Reconcile: the set of instances that the reconciler keeps, and what it
-- deletes where a resource is not found.
pub mod Requests
pub mod Calls
pub mod Loop
pub mod Start
pub mod Returns
pub mod Status
pub mod Since
pub mod Ready
pub mod Agents
pub mod Claims
pub mod Server
pub mod Front
pub mod Databases
pub mod Shards
pub mod Order
pub mod Owned
pub mod Confined
pub mod Stays
pub mod Operator
pub mod Roles
use telemetry_operator.Base.{String, Bool, ◌&&◌, List, [], ◌∷◌, ◌==◌, if◌then◌else◌}
use telemetry_operator.Kube.{Kube}
use telemetry_operator.Api.Telemetry.{Telemetry, zero_telemetry}
use telemetry_operator.Cluster.{
  Object, cluster_role, cluster_role_binding, Request, create_or_update, delete,
}
use telemetry_operator.Builders.Rights.{
  cluster_agent_cluster_role, cluster_agent_cluster_role_binding,
}

-- ctrl.Request: the namespace and the name
abbrev pub Key : Type 0
Key = String × String

abbrev pub same_key : Key → Key → Bool
same_key a b = (a.0 == b.0) && (a.1 == b.1)

-- delete(r.instances, req)
unfoldable pub forget : Key → List Key → List Key
forget req [] = []
forget req (k ∷ instances) =
    let others = forget req instances in if same_key k req then others else k ∷ others

-- r.instances[req] = true
unfoldable pub track : Key → List Key → List Key
unfolding forget
track req instances = req ∷ forget req instances

-- The bare custom resource that names the objects to be deleted.
abbrev pub named : (K : Kube) → Key → Telemetry K
named K req = record (zero_telemetry K) { namespace = req.0; name = req.1 }

-- The deletions once the remaining instances are known. (Only their names matter: the server deletes
-- by name.)
abbrev pub delete_roles : (K : Kube) → String → Key → List Key → List (Request K)
delete_roles K deny req [] =
    delete (cluster_role_binding (cluster_agent_cluster_role_binding K (named K req)))
    ∷ delete (cluster_role (cluster_agent_cluster_role K deny (named K req)))
    ∷ []
delete_roles K deny req (k ∷ instances) = []

-- Reconcile for a resource that is not found: the instances that remain, and the requests.
unfoldable pub reconcile_deleted :
    (K : Kube) → String → Key → List Key → List Key × List (Request K)
unfolding forget
reconcile_deleted K deny req instances =
    (forget req instances, delete_roles K deny req (forget req instances))
