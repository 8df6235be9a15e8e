-- ===== src/Examples/Runs.antt =====
-- A life of the operator: two resources of one name in two namespaces, one of which is deleted.
use telemetry_operator.Base.{refl, []}
use telemetry_operator.Base.Predicates.{All}
use telemetry_operator.Api.Telemetry.{Telemetry}
use telemetry_operator.Cluster.{Server, Fetched, found, not_found}
use telemetry_operator.Reconcile.{Key}
use telemetry_operator.Reconcile.Loop.{reconcile}
use telemetry_operator.Reconcile.Operator.{
  State, Reachable, start, step, called, idle, roles_after, HasRole,
}
use telemetry_operator.Reconcile.Roles.{Reachable-HasRole}
use telemetry_operator.Examples.World.{kube, server, resource}
use telemetry_operator.Examples.Loop.{env}

abbrev other : Telemetry kube
other = record resource { namespace = "staging" }

-- A server that gives this reply.
abbrev replying : Fetched kube → Server kube
replying reply = record server { telemetry = λ history namespace name. reply }

abbrev after : Fetched kube → Key → State kube → State kube
after reply req s = record {
  reconciler = (reconcile kube env (replying reply) req s.reconciler s.history).reconciler;
  history = (reconcile kube env (replying reply) req s.reconciler s.history).history;
}

abbrev begun : State kube
begun = record { reconciler = idle; history = [] }

abbrev one : State kube
one = after (found resource) ("monitoring", "prod") begun

abbrev two : State kube
two = after (found other) ("staging", "prod") one

-- The state after the deletion of the first resource.
abbrev left : State kube
left = after not_found ("monitoring", "prod") two

run : Reachable kube left
run =
    step
      (step
        (step start
          (called env (replying (found resource)) ("monitoring", "prod") begun (refl, refl, refl)))
        (called env (replying (found other)) ("staging", "prod") one (refl, refl, refl)))
      (called env (replying not_found) ("monitoring", "prod") two tt)

Reachable-HasRole_example : All (HasRole (roles_after [] left.history)) left.reconciler.instances
Reachable-HasRole_example = Reachable-HasRole kube [] left run
