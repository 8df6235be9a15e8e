-- ===== src/Reconcile/Returns.antt =====
-- When the calls of Reconcile come to their end.
use mathlib.Core.List.{◌++◌ as append}
use telemetry_operator.Base.{
  ◌≡◌, refl, ◌∙◌, Bool, true, false, not, ◌&&◌, ◌||◌, is_some, List, [], ◌∷◌, arith, if◌then◌else◌,
}
use telemetry_operator.Kube.{Kube}
use telemetry_operator.Api.Telemetry.{Telemetry}
use telemetry_operator.Objects.{PersistentVolumeClaim, StatefulSet}
use telemetry_operator.ConfigEnvs.{ConfigEnvs}
use telemetry_operator.Cluster.{History, Server}
use telemetry_operator.Validate.{Outcome, returned, panicked}
use telemetry_operator.Validate.Context.{Context}
use telemetry_operator.Validate.Returns.{did_return, has_selectors}
use telemetry_operator.Validate.Frame.{is_negative}
use telemetry_operator.Builders.Declared.{did_return-telemetry_stateful_set}
use telemetry_operator.Builders.Sets.{
  did_return-clickhouse_stateful_sets, did_return-clickhouse_keeper_stateful_set,
}
use telemetry_operator.Reconcile.Calls.{
  Environment, Calls, ask, issue, then_issue, pvc_calls, stateful_set_call, stateful_set_calls,
  agent_calls, server_calls, front_calls, prometheus_calls, clickhouse_calls, keeper_block,
  clickhouse_block,
}
use telemetry_operator.Reconcile.Loop.{
  Reconciler, Run, settle, reconcile_stores, reconcile_validated,
}

-- No argument of a call panics.
unfoldable all_return : {K : Kube} → Calls K → Bool
all_return [] = true
all_return (o ∷ calls) = did_return o && all_return calls

did_return-issue :
    {K : Kube} (calls : Calls K) (history : History K)
    → did_return (issue calls history).0 ≡ all_return calls
unfolding issue all_return
did_return-issue [] history = refl
did_return-issue (panicked ∷ calls) history = refl
did_return-issue (returned rs ∷ calls) history = did_return-issue calls (ask rs history)

did_return-then_issue :
    {K : Kube} (before : Outcome (Unit {0}) × History K) (calls : Calls K)
    → did_return (then_issue before calls).0 ≡ (did_return before.0 && all_return calls)
did_return-then_issue (panicked, history) calls = refl
did_return-then_issue (returned done, history) calls = did_return-issue calls history

all_return-append :
    {K : Kube} (a b : Calls K) → all_return (append a b) ≡ (all_return a && all_return b)
unfolding all_return
all_return-append [] b = refl
all_return-append (o ∷ a) b = rw (all_return-append a b) (ground arith)

module _ (K : Kube) (env : Environment K) where
  all_return-pvc_calls :
      (pvcs : List (PersistentVolumeClaim K)) (policy : _)
      → all_return (pvc_calls K env pvcs policy) ≡ true
  unfolding all_return
  all_return-pvc_calls [] policy = refl
  all_return-pvc_calls (pvc ∷ pvcs) policy = all_return-pvc_calls pvcs policy

  did_return-stateful_set_call :
      (o : Outcome (StatefulSet K)) → did_return (stateful_set_call K env o) ≡ did_return o
  did_return-stateful_set_call panicked = refl
  did_return-stateful_set_call (returned s) = refl

  all_return-stateful_set_calls :
      (o : Outcome (List (StatefulSet K))) → all_return (stateful_set_calls K env o) ≡ did_return o
  unfolding all_return
  all_return-stateful_set_calls panicked = refl
  all_return-stateful_set_calls (returned []) = refl
  all_return-stateful_set_calls (returned (s ∷ l)) = all_return-stateful_set_calls (returned l)

  all_return-agent_calls : (cr : Telemetry K) → all_return (agent_calls K env cr) ≡ true
  unfolding agent_calls all_return
  all_return-agent_calls cr = refl

  all_return-server_calls :
      (cr : Telemetry K) (envs : ConfigEnvs)
      → all_return (server_calls K env cr envs)
        ≡ (has_selectors cr.spec.tls && not (is_negative cr.spec.replicas))
  unfolding server_calls all_return
  all_return-server_calls cr envs =
      rw
        (
          all_return-append, all_return-pvc_calls, did_return-stateful_set_call,
          did_return-telemetry_stateful_set,
        )
        (ground arith)

  all_return-front_calls :
      (cr : Telemetry K) (deleted : Bool) → all_return (front_calls K env cr deleted) ≡ true
  unfolding front_calls all_return
  all_return-front_calls cr deleted = refl

  all_return-prometheus_calls : (cr : Telemetry K) → all_return (prometheus_calls K env cr) ≡ true
  unfolding prometheus_calls all_return
  all_return-prometheus_calls cr = ground arith

  all_return-unless :
      (b : Bool) (calls : Calls K) → all_return (if b then [] else calls) ≡ (b || all_return calls)
  unfolding all_return
  all_return-unless true calls = refl
  all_return-unless false calls = refl

  all_return-keeper_block : (cr : Telemetry K) → all_return (keeper_block K env cr) ≡ true
  unfolding all_return
  all_return-keeper_block cr =
      rw
        (
          all_return-append, all_return-pvc_calls, did_return-stateful_set_call,
          did_return-clickhouse_keeper_stateful_set,
        )
        refl

  all_return-clickhouse_block :
      (cr : Telemetry K)
      → all_return (clickhouse_block K env cr) ≡ (
          not (is_negative cr.spec.clickhouse.shards)
          && not (is_negative cr.spec.clickhouse.replicas))
  unfolding all_return
  all_return-clickhouse_block cr =
      rw
        (
          all_return-append, all_return-pvc_calls, all_return-append, all_return-stateful_set_calls,
          did_return-clickhouse_stateful_sets,
        )
        (ground arith)

  all_return-clickhouse_calls :
      (cr : Telemetry K)
      → all_return (clickhouse_calls K env cr) ≡ (
          is_some cr.spec.external_clickhouse
          || (not (is_negative cr.spec.clickhouse.shards)
              && not (is_negative cr.spec.clickhouse.replicas)))
  unfolding clickhouse_calls
  all_return-clickhouse_calls cr =
      rw
        (all_return-unless, all_return-append, all_return-keeper_block, all_return-clickhouse_block)
        refl

  module _ (server : Server K) where
    pub did_return-settle :
        (cr : Telemetry K) (errors : List _) (r : Reconciler) (out : Outcome (Unit {0}) × History K)
        → did_return (settle K env server cr errors r out).reply ≡ did_return out.0
    did_return-settle cr errors r (panicked, h) = refl
    did_return-settle cr errors r (returned done, h) = refl

    -- Whether the run returns, from what validateTelemetry has returned.
    abbrev pub stores_return : Telemetry K → Bool
    stores_return cr =
        (has_selectors cr.spec.tls && not (is_negative cr.spec.replicas))
        && (is_some cr.spec.external_clickhouse
            || (not (is_negative cr.spec.clickhouse.shards)
                && not (is_negative cr.spec.clickhouse.replicas)))

    abbrev pub validated_return : Outcome (Telemetry K) → Bool
    validated_return panicked = false
    validated_return (returned cr) = is_some cr.spec.agents_only || stores_return cr

    did_return-reconcile_stores :
        (cr : Telemetry K) (c : Context K) (r : Reconciler)
        (agents : Outcome (Unit {0}) × History K)
        → did_return agents.0 ≡ true
        → did_return (reconcile_stores K env server cr c r agents).reply ≡ stores_return cr
    did_return-reconcile_stores cr c r agents e =
        did_return-settle cr c.errors _ _
        ∙ rw
            (
              did_return-then_issue, did_return-then_issue, did_return-then_issue,
              did_return-then_issue, e, all_return-server_calls, all_return-front_calls,
              all_return-prometheus_calls, all_return-clickhouse_calls,
            )
            (ground arith)

    did_return-agents :
        (b : Bool) (x y : Run K) (z : Bool)
        → did_return x.reply ≡ true
        → did_return y.reply ≡ z
        → did_return (if b then x else y).reply ≡ (b || z)
    did_return-agents true x y z p q = p
    did_return-agents false x y z p q = q

    pub did_return-reconcile_validated :
        (cr : Telemetry K) (r : Reconciler) (v : Outcome (Telemetry K) × Context K)
        → did_return (reconcile_validated K env server cr r v).reply ≡ validated_return v.0
    did_return-reconcile_validated cr r (panicked, c) = refl
    did_return-reconcile_validated cr r (returned cr', c) =
        did_return-agents (is_some cr'.spec.agents_only) _ _ (stores_return cr') refl (
          did_return-reconcile_stores cr' c r _
            (did_return-issue (agent_calls K env cr') c.history ∙ all_return-agent_calls cr'))
