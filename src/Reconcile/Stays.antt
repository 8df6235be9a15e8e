-- ===== src/Reconcile/Stays.antt =====
-- Reconcile asks for and deletes only what belongs to the resource: ClickHouse, and the whole function.
use mathlib.Core.Path.{subst}
use mathlib.Core.List.{◌++◌ as append}
use telemetry_operator.Base.{
  ◌≡◌, refl, sym, ap, ℤ, String, false, is_some, List, [], ◌∷◌, if_intro, map, rounds,
}
use telemetry_operator.Base.Predicates.{All-map, All-flat_map, All-Memᴰ}
use telemetry_operator.Kube.{Kube}
use telemetry_operator.Api.Telemetry.{Telemetry}
use telemetry_operator.Objects.{PersistentVolumeClaim, StatefulSet}
use telemetry_operator.Cluster as C
use telemetry_operator.Cluster.{Object, History}
use telemetry_operator.Validate.{Outcome, returned, panicked}
use telemetry_operator.Builders.Labels.{count_up}
use telemetry_operator.Builders.Rights.{
  openshift_scc_role, openshift_scc_role_binding, service_account,
}
use telemetry_operator.Builders.Stores.{
  clickhouse_service, clickhouse_service_headless, clickhouse_pvcs,
  clickhouse_keeper_service_headless, clickhouse_keeper_pvcs,
}
use telemetry_operator.Builders.Pod.{first}
use telemetry_operator.Builders.Declared.{value_or}
use telemetry_operator.Builders.Databases.{
  one_if_not_positive, clickhouse_set, clickhouse_sets, clickhouse_stateful_sets, keeper_set,
  clickhouse_keeper_stateful_set,
}
use telemetry_operator.Reconcile.Requests.{
  create_or_update_service, create_or_update_service_account, create_or_update_secret,
}
use telemetry_operator.Reconcile.Calls.{
  Environment, pvc_calls, stateful_set_call, stateful_set_calls, agent_calls, server_calls,
  front_calls, prometheus_calls, keeper_block, clickhouse_block, clickhouse_calls,
}
use telemetry_operator.Reconcile.Since.{Fits, Safe, Safe-append, Safe-map}
use telemetry_operator.Reconcile.Claims.{stateful_set_call-Safe}
use telemetry_operator.Reconcile.Owned.{Here, Owned}
use telemetry_operator.Validate.{validate_telemetry}
use telemetry_operator.Validate.Context.{Context}
use telemetry_operator.Validate.Frame.{validate_telemetry-frame}
use telemetry_operator.Validate.Asked.{validate_telemetry-Closed}
use telemetry_operator.Cluster.{Server}
use telemetry_operator.Reconcile.Calls.{ask, issue, then_issue, scc_calls}
use telemetry_operator.Reconcile.Loop.{
  Reconciler, Run, settle, reconcile_stores, reconcile_validated, reconcile_found,
}
use telemetry_operator.Reconcile.Since.{
  Since, Since-base, Since-cons, issue-Since, then_issue-Since,
}
use telemetry_operator.Reconcile.Confined.{
  claims-Owned, agent_calls-Owned, server_calls-Owned, front_calls-Owned, prometheus_calls-Owned,
}

module _ (K : Kube) (env : Environment K) (cr : Telemetry K) where
  keeper_set-Here :
      (replicas : ℤ) (claim : Outcome (PersistentVolumeClaim K)) (s : StatefulSet K)
      → keeper_set K env.versions env.registry cr replicas claim ≡ returned s
      → Here cr s.meta
  keeper_set-Here replicas panicked s e = cc
  keeper_set-Here replicas (returned claim) s e = ap (λ o. (value_or s o).meta.namespace) (sym e)

  keeper_block-Owned : (h : History K) → Safe (Owned cr) (keeper_block K env cr) h
  unfolding Safe Fits create_or_update_secret create_or_update_service_account service_account
      openshift_scc_role_binding clickhouse_keeper_service_headless clickhouse_keeper_pvcs
      clickhouse_keeper_stateful_set
  keeper_block-Owned h =
      let policy = cr.spec.clickhouse.keeper.storage.reclaim_policy in
      let set = clickhouse_keeper_stateful_set K env.versions env.registry cr in
      (
        (refl, tt),
        (
          ((refl, refl), ((refl, refl), tt)),
          (
            ((refl, refl), tt),
            Safe-append (Owned cr) (pvc_calls K env (clickhouse_keeper_pvcs K cr) policy)
                (stateful_set_call K env set ∷ []) _
                (claims-Owned K env cr (clickhouse_keeper_pvcs K cr) policy _
                  (All-map _ _ _ (λ i. refl)))
                (stateful_set_call-Safe K env (Owned cr) set [] _
                  (λ s e. (keeper_set-Here _ _ s e, refl)) (λ h'. tt)),
          ),
        ),
      )

  clickhouse_sets-Owned :
      (claim : Outcome (PersistentVolumeClaim K)) (h : History K)
      → Safe
          (Owned cr)
          (stateful_set_calls K env (clickhouse_sets K env.versions env.registry cr claim))
          h
  unfolding Safe
  clickhouse_sets-Owned panicked h = tt
  clickhouse_sets-Owned (returned claim) h =
      let set = clickhouse_set K env.versions env.registry cr claim in
      let shards = count_up 0 (rounds (one_if_not_positive cr.spec.clickhouse.shards)) in
      Safe-map (Owned cr) (λ s. C.create_or_update (C.stateful_set s) false) (map set shards) h
        (λ s m h' x. (
          All-Memᴰ (λ t. Here cr t.meta) (map set shards) s (All-map _ set shards (λ i. refl)) m,
          refl,
        ))

  clickhouse_block-Owned : (h : History K) → Safe (Owned cr) (clickhouse_block K env cr) h
  unfolding Safe Fits create_or_update_service_account service_account openshift_scc_role_binding
      clickhouse_service_headless clickhouse_service clickhouse_pvcs clickhouse_stateful_sets
  clickhouse_block-Owned h =
      let policy = cr.spec.clickhouse.storage.reclaim_policy in
      let sets =
        stateful_set_calls K env (clickhouse_stateful_sets K env.versions env.registry cr) in
      let last = returned (create_or_update_service (clickhouse_service K cr)) ∷ [] in
      (
        ((refl, refl), ((refl, refl), tt)),
        (
          ((refl, refl), tt),
          Safe-append (Owned cr) (pvc_calls K env (clickhouse_pvcs K cr) policy) (append sets last)
              _
              (claims-Owned K env cr (clickhouse_pvcs K cr) policy _
                (All-flat_map _ _ _ (λ j. All-map _ _ _ (λ i. refl))))
              (Safe-append (Owned cr) sets last _
                (clickhouse_sets-Owned (first (clickhouse_pvcs K cr)) _) (((refl, refl), tt), tt)),
        ),
      )

  clickhouse_calls-Owned : (h : History K) → Safe (Owned cr) (clickhouse_calls K env cr) h
  unfolding clickhouse_calls Safe
  clickhouse_calls-Owned h =
      if_intro (λ l. Safe (Owned cr) l h) (is_some cr.spec.external_clickhouse) _ _ (λ _. tt)
        (λ _.
          Safe-append (Owned cr) (keeper_block K env cr) (clickhouse_block K env cr) h
            (keeper_block-Owned h) (clickhouse_block-Owned _))

module _ (K : Kube) (env : Environment K) (server : Server K) (base : History K) where
  settle-Owned :
      (cr : Telemetry K) (errors : List String) (r : Reconciler)
      (out : Outcome (Unit {0}) × History K)
      → Since (Owned cr) base out.1
      → Since (Owned cr) base (settle K env server cr errors r out).history
  settle-Owned cr errors r (panicked, h) s = Since-cons (Owned cr) base _ h (refl, refl) s
  settle-Owned cr errors r (returned done, h) s = Since-cons (Owned cr) base _ h (refl, refl) s

  pub reconcile_stores-Owned :
      (cr : Telemetry K) (c : Context K) (r : Reconciler) (agents : Outcome (Unit {0}) × History K)
      → Since (Owned cr) base agents.1
      → Since (Owned cr) base (reconcile_stores K env server cr c r agents).history
  reconcile_stores-Owned cr c r agents s =
      let before = then_issue agents (server_calls K env cr c.config_envs) in
      let front = then_issue before (front_calls K env cr r.deployment_deleted) in
      let stores = then_issue front (prometheus_calls K env cr) in
      settle-Owned cr c.errors _ _ (
        then_issue-Since (Owned cr) base stores _
          (then_issue-Since (Owned cr) base front _
            (then_issue-Since (Owned cr) base before _
              (then_issue-Since (Owned cr) base agents _ s
                (λ _. server_calls-Owned K env cr c.config_envs agents.1))
              (λ _. front_calls-Owned K env cr r.deployment_deleted before.1))
            (λ _. prometheus_calls-Owned K env cr front.1))
          (λ _. clickhouse_calls-Owned K env cr stores.1))

  reconcile_returned-Owned :
      (cr cr' : Telemetry K) (c : Context K) (r : Reconciler)
      → Since (Owned cr') base c.history
      → Since (Owned cr') base (reconcile_validated K env server cr r (returned cr', c)).history
  reconcile_returned-Owned cr cr' c r s =
      let agents : Since (Owned cr') base (issue (agent_calls K env cr') c.history).1 =
        issue-Since (Owned cr') base _ c.history (agent_calls-Owned K env cr' c.history) s in
      if_intro {A = Run K} (λ run. Since (Owned cr') base run.history)
        (is_some cr'.spec.agents_only) _ _
        (λ _. Since-cons (Owned cr') base _ _ (refl, refl) agents)
        (λ _. reconcile_stores-Owned cr' c r _ agents)

  validated-Owned :
      (cr : Telemetry K) (h : History K) (r : Reconciler) (v : Outcome (Telemetry K) × Context K)
      → validate_telemetry server cr [] h ≡ v
      → Since (Owned cr) base v.1.history
      → Since (Owned cr) base (reconcile_validated K env server cr r v).history
  validated-Owned cr h r (panicked, c) e s = Since-cons (Owned cr) base _ c.history (refl, refl) s
  validated-Owned cr h r (returned cr', c) e s =
      let frame = validate_telemetry-frame server cr cr' [] h (ap (λ v. v.0) e) in
      let name : cr'.name ≡ cr.name = ap (λ x. x.name) frame in
      let namespace : cr'.namespace ≡ cr.namespace = ap (λ x. x.namespace) frame in
      let wanted : is_some cr'.spec.ingress ≡ is_some cr.spec.ingress =
        ap (λ x. is_some x.spec.ingress) frame in
      let same : Owned cr' ≡ Owned cr = rw (name, namespace, wanted) refl in
      subst (λ R. Since R base (reconcile_validated K env server cr r (returned cr', c)).history)
        same
        (reconcile_returned-Owned cr cr' c r (subst (λ R. Since R base c.history) (sym same) s))

-- Whatever the server replies, the reconciliation of a resource that was found makes these requests
-- alone: it gets secrets of the resource's own namespace; it creates or updates objects of that
-- namespace, of which all but claims and secrets go when the resource goes, and the cluster role and
-- binding of the name of its cluster agent, which stay; it deletes nothing but the server's
-- deployment of earlier versions and, where the resource wants no ingress, the ingress of its name;
-- and it updates the status of the resource itself.
pub reconcile_found-Owned :
    (K : Kube) (env : Environment K) (server : Server K) (cr : Telemetry K)
    (reconciler : Reconciler) (history : History K)
    → Since (Owned cr) history (reconcile_found K env server cr reconciler history).history
unfolding reconcile_found scc_calls openshift_scc_role
reconcile_found-Owned K env server cr reconciler history =
    let h = ask (scc_calls K env cr) history in
    validated-Owned K env server history cr h reconciler (validate_telemetry server cr [] h) refl (
      validate_telemetry-Closed server cr [] h (Since (Owned cr) history)
        (record {
          get = λ name g s. Since-cons (Owned cr) history _ g refl s;
          put = λ name key keys g s. Since-cons (Owned cr) history _ g refl s;
        })
        (Since-cons (Owned cr) history _ _ (refl, refl)
          (Since-cons (Owned cr) history _ history (refl, refl) (Since-base (Owned cr) history))))
