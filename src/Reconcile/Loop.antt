-- ===== src/Reconcile/Loop.antt =====
-- controller/controller.go, Reconcile: the whole function.
use telemetry_operator.Base.{
  ℕ, String, Bool, ◌||◌, Option, none, some, is_some, List, [], ◌∷◌, if◌then◌else◌,
}
use telemetry_operator.Kube.{Kube}
use telemetry_operator.Api.Telemetry.{Telemetry, TelemetryStatus}
use telemetry_operator.Cluster.{
  History, Server, Fetched, found, not_found, failed, get_telemetry, update_status,
}
use telemetry_operator.Validate.{Outcome, returned, panicked, validate_telemetry}
use telemetry_operator.Validate.Context.{Context}
use telemetry_operator.Validate.Returns.{did_return}
use telemetry_operator.Reconcile.{Key, track, reconcile_deleted}
use telemetry_operator.Reconcile.Calls.{
  Environment, ask, issue, then_issue, scc_calls, agent_calls, server_calls, front_calls,
  prometheus_calls, clickhouse_calls,
}

-- The fields of TelemetryReconciler that Reconcile changes.
pub record Reconciler : Type 0 where
  pub instances : List Key
  pub deployment_deleted : Bool

-- ctrl.Result, with the seconds of RequeueAfter, and the error.
pub record Reply : Type 0 where
  pub requeue_after : ℕ
  pub error : Option String

-- What a run leaves behind: the reconciler's fields, the requests and the answer.
pub record Run (K : Kube) : Type 0 where
  pub reconciler : Reconciler
  pub history : History K
  pub reply : Outcome Reply

-- Lines 238 to 245.
abbrev pub settled_status : List String → TelemetryStatus
settled_status [] = record { status = "OK"; errors = [] }
settled_status (e ∷ errors) = record { status = "Misconfigured"; errors = e ∷ errors }

abbrev pub settled_reply : List String → Reply
settled_reply [] = record { requeue_after = 0; error = none }
settled_reply (e ∷ errors) = record { requeue_after = 60; error = none }

module _ (K : Kube) (env : Environment K) (server : Server K) where
  -- The deferred update of the status, which is made whether the body returns or panics.
  abbrev pub deferred :
      Telemetry K → TelemetryStatus → Reconciler → History K → Outcome Reply → Run K
  deferred cr status reconciler history reply = record {
    reconciler = reconciler;
    history = update_status cr.namespace cr.name status ∷ history;
    reply = reply;
  }

  -- The status is changed at the end of the body alone.
  abbrev pub settle :
      Telemetry K → List String → Reconciler → Outcome (Unit {0}) × History K → Run K
  settle cr errors reconciler (panicked, history) =
      deferred cr cr.status reconciler history panicked
  settle cr errors reconciler (returned done, history) =
      deferred cr (settled_status errors) reconciler history (returned (settled_reply errors))

  -- From line 192, where there are not the agents only.
  abbrev pub reconcile_stores :
      Telemetry K → Context K → Reconciler → Outcome (Unit {0}) × History K → Run K
  reconcile_stores cr c reconciler agents =
      let before = then_issue agents (server_calls K env cr c.config_envs) in
      let front = then_issue before (front_calls K env cr reconciler.deployment_deleted) in
      let stores = then_issue front (prometheus_calls K env cr) in
      settle cr c.errors
        (record reconciler {
          deployment_deleted = reconciler.deployment_deleted || did_return before.0;
        })
        (then_issue stores (clickhouse_calls K env cr))

  -- From line 179, with what validateTelemetry has left.
  abbrev pub reconcile_validated :
      Telemetry K → Reconciler → Outcome (Telemetry K) × Context K → Run K
  reconcile_validated cr reconciler (panicked, c) =
      deferred cr cr.status reconciler c.history panicked
  reconcile_validated cr reconciler (returned cr', c) =
      let agents = issue (agent_calls K env cr') c.history in
      if is_some cr'.spec.agents_only
      then deferred cr' cr'.status reconciler agents.1
          (returned (record { requeue_after = 0; error = none }))
      else reconcile_stores cr' c reconciler agents

  -- Reconcile from line 169, of the resource that was found.
  unfoldable pub reconcile_found : Telemetry K → Reconciler → History K → Run K
  unfolding scc_calls agent_calls server_calls front_calls prometheus_calls clickhouse_calls issue
  reconcile_found cr reconciler history =
      reconcile_validated cr reconciler
        (validate_telemetry server cr [] (ask (scc_calls K env cr) history))

  abbrev pub reconcile_fetched : Key → Reconciler → History K → Fetched K → Run K
  reconcile_fetched req reconciler history (found cr) =
      reconcile_found cr (record reconciler { instances = track req reconciler.instances }) history
  reconcile_fetched req reconciler history not_found =
      let (instances, requests) =
        reconcile_deleted K env.deny_global_secrets req reconciler.instances in
      record {
        reconciler = record reconciler { instances = instances };
        history = ask requests history;
        reply = returned (record { requeue_after = 0; error = none });
      }
  reconcile_fetched req reconciler history (failed e) = record {
    reconciler = reconciler;
    history = history;
    reply = returned (record { requeue_after = 0; error = some e });
  }

  -- Reconcile
  unfoldable pub reconcile : Key → Reconciler → History K → Run K
  unfolding reconcile_found track reconcile_deleted
  reconcile req reconciler history =
      reconcile_fetched req reconciler (get_telemetry req.0 req.1 ∷ history)
        (server.telemetry history req.0 req.1)
