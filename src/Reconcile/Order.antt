-- ===== src/Reconcile/Order.antt =====
-- Reconcile asks for everything in an order in which nothing waits for a later request.
use Prim.Native.String.{◌++◌}
use mathlib.Core.List.Memᴰ
use mathlib.Core.List.{Memᴰ}
use telemetry_operator.Base.{◌≡◌, refl, ap, true, String, List, [], ◌∷◌, is_some, if_intro}
use telemetry_operator.Kube.{Kube}
use telemetry_operator.Api.Telemetry.{Telemetry}
use telemetry_operator.ConfigEnvs.{ConfigEnvs}
use telemetry_operator.Cluster.{History, Server, Fetched, found, not_found, failed}
use telemetry_operator.Validate.{Outcome, returned, panicked, validate_telemetry}
use telemetry_operator.Validate.Context.{Context}
use telemetry_operator.Validate.Returns.{did_return}
use telemetry_operator.Validate.Frame.{validate_telemetry-frame}
use telemetry_operator.Validate.Requests.{Closed}
use telemetry_operator.Validate.Asked.{validate_telemetry-Closed}
use telemetry_operator.Builders.Rights.{openshift_scc_role}
use telemetry_operator.Builders.Front.{telemetry_service}
use telemetry_operator.Reconcile.{Key, delete_roles, reconcile_deleted, forget}
use telemetry_operator.Reconcile.Calls.{
  Environment, ask, issue, then_issue, pvc_calls, scc_calls, agent_calls, server_calls, front_calls,
  prometheus_calls,
}
use telemetry_operator.Builders.Front.{telemetry_pvcs}
use telemetry_operator.Reconcile.Loop.{
  Reconciler, Run, settle, reconcile_stores, reconcile_validated, reconcile_found,
  reconcile_fetched, reconcile,
}
use telemetry_operator.Reconcile.Since.{
  Since, Since-base, Since-cons, issue-Since, issue-Extends, then_issue-Since, then_issue-Extends,
  then_issue-all,
}
use telemetry_operator.Reconcile.Ready.{Ready, HasService}
use telemetry_operator.Reconcile.Agents.{HasRoles, Extends-HasRoles, agent_calls-Safe}
use telemetry_operator.Reconcile.Server.{server_calls-Safe}
use telemetry_operator.Reconcile.Front.{front_calls-Safe, prometheus_calls-Safe}
use telemetry_operator.Reconcile.Shards.{clickhouse_calls-Safe}

module _ (K : Kube) (env : Environment K) (server : Server K) (base : History K) where
  settle-Since :
      (cr : Telemetry K) (errors : List String) (r : Reconciler)
      (out : Outcome (Unit {0}) × History K)
      → Since Ready base out.1
      → Since Ready base (settle K env server cr errors r out).history
  settle-Since cr errors r (panicked, h) s = Since-cons Ready base _ h tt s
  settle-Since cr errors r (returned done, h) s = Since-cons Ready base _ h tt s

  -- The service of the server has been asked for once the calls for the server have returned.
  server_calls-HasService :
      (cr : Telemetry K) (envs : ConfigEnvs) (out : Outcome (Unit {0}) × History K)
      → did_return (then_issue out (server_calls K env cr envs)).0 ≡ true
      → HasService
          (then_issue out (server_calls K env cr envs)).1
          cr.namespace
          (cr.name ++ "-telemetry")
  unfolding telemetry_service server_calls
  server_calls-HasService cr envs out d = (
    telemetry_service K cr,
    then_issue-all out (server_calls K env cr envs) _ _
        (Memᴰ.tail (
          Memᴰ.append_right (pvc_calls K env (telemetry_pvcs K cr) cr.spec.storage.reclaim_policy)
            (Memᴰ.tail (Memᴰ.tail (Memᴰ.head refl)))))
        (Memᴰ.head refl) d,
    (refl, refl),
  )

  reconcile_stores-Since :
      (cr : Telemetry K) (c : Context K) (r : Reconciler) (agents : Outcome (Unit {0}) × History K)
      → HasRoles K cr agents.1
      → Since Ready base agents.1
      → Since Ready base (reconcile_stores K env server cr c r agents).history
  reconcile_stores-Since cr c r agents roles s =
      let before = then_issue agents (server_calls K env cr c.config_envs) in
      let front = then_issue before (front_calls K env cr r.deployment_deleted) in
      let stores = then_issue front (prometheus_calls K env cr) in
      let kept : HasRoles K cr before.1 =
        Extends-HasRoles K cr _ _ (then_issue-Extends agents _) roles in
      let kept' : HasRoles K cr front.1 =
        Extends-HasRoles K cr _ _ (then_issue-Extends before _) kept in
      let kept'' : HasRoles K cr stores.1 =
        Extends-HasRoles K cr _ _ (then_issue-Extends front _) kept' in
      settle-Since cr c.errors _ _ (
        then_issue-Since Ready base stores _
          (then_issue-Since Ready base front _
            (then_issue-Since Ready base before _
              (then_issue-Since Ready base agents _ s
                (λ _. server_calls-Safe K env cr c.config_envs agents.1 roles))
              (λ d.
                front_calls-Safe K env cr r.deployment_deleted before.1
                  (server_calls-HasService cr c.config_envs agents d)))
            (λ _. prometheus_calls-Safe K env cr front.1 kept'))
          (λ _. clickhouse_calls-Safe K env cr stores.1 kept''))

  reconcile_validated-Since :
      (cr : Telemetry K) (r : Reconciler) (v : Outcome (Telemetry K) × Context K)
      → ((cr' : Telemetry K) → v.0 ≡ returned cr' → HasRoles K cr' v.1.history)
      → Since Ready base v.1.history
      → Since Ready base (reconcile_validated K env server cr r v).history
  reconcile_validated-Since cr r (panicked, c) roles s = Since-cons Ready base _ c.history tt s
  reconcile_validated-Since cr r (returned cr', c) roles s =
      let granted = roles cr' refl in
      let agents : Since Ready base (issue (agent_calls K env cr') c.history).1 =
        issue-Since Ready base _ c.history (agent_calls-Safe K cr' env c.history granted) s in
      if_intro {A = Run K} (λ run. Since Ready base run.history) (is_some cr'.spec.agents_only) _ _
        (λ _. Since-cons Ready base _ _ tt agents)
        (λ _.
          reconcile_stores-Since cr' c r _
            (Extends-HasRoles K cr' c.history _ (issue-Extends (agent_calls K env cr') c.history)
              granted)
            agents)

  -- What validateTelemetry starts from and leaves: linked requests, the roles among them.
  abbrev WithRoles : Telemetry K → History K → Type 0
  WithRoles cr h = Since Ready base h × HasRoles K cr h

  WithRoles-Closed : (cr : Telemetry K) → Closed K cr.namespace (WithRoles cr)
  WithRoles-Closed cr = record {
    get = λ name h (s, roles).
        (Since-cons Ready base _ h tt s, Extends-HasRoles K cr h _ (λ r m. Memᴰ.tail m) roles);
    put = λ name key keys h (s, roles).
        (Since-cons Ready base _ h tt s, Extends-HasRoles K cr h _ (λ r m. Memᴰ.tail m) roles);
  }

  scc_calls-WithRoles :
      (cr : Telemetry K) (h : History K)
      → Since Ready base h
      → WithRoles cr (ask (scc_calls K env cr) h)
  unfolding scc_calls openshift_scc_role
  scc_calls-WithRoles cr h s = (
    Since-cons Ready base _ _ tt (Since-cons Ready base _ h tt s),
    (
      (openshift_scc_role K cr "nonroot", Memᴰ.tail (Memᴰ.head refl), (refl, refl)),
      (openshift_scc_role K cr "privileged", Memᴰ.head refl, (refl, refl)),
    ),
  )

  reconcile_found-Since :
      (cr : Telemetry K) (r : Reconciler) (h : History K)
      → Since Ready base h
      → Since Ready base (reconcile_found K env server cr r h).history
  unfolding reconcile_found
  reconcile_found-Since cr r h s =
      let h1 = ask (scc_calls K env cr) h in
      let (linked, roles) =
        validate_telemetry-Closed server cr [] h1 (WithRoles cr) (WithRoles-Closed cr)
          (scc_calls-WithRoles cr h s) in
      reconcile_validated-Since cr r (validate_telemetry server cr [] h1)
        (λ cr' e.
          let frame = validate_telemetry-frame server cr cr' [] h1 e in
          let name : cr'.name ≡ cr.name = ap (λ x. x.name) frame in
          let namespace : cr'.namespace ≡ cr.namespace = ap (λ x. x.namespace) frame in
          rw (name, namespace) roles)
        linked

  delete_roles-Since :
      (req : Key) (left : List Key) (h : History K)
      → Since Ready base h
      → Since Ready base (ask (delete_roles K env.deny_global_secrets req left) h)
  delete_roles-Since req [] h s = Since-cons Ready base _ _ tt (Since-cons Ready base _ h tt s)
  delete_roles-Since req (k ∷ left) h s = s

  reconcile_fetched-Since :
      (req : Key) (r : Reconciler) (h : History K) (f : Fetched K)
      → Since Ready base h
      → Since Ready base (reconcile_fetched K env server req r h f).history
  unfolding reconcile_deleted
  reconcile_fetched-Since req r h (found cr) s = reconcile_found-Since cr _ h s
  reconcile_fetched-Since req r h not_found s = delete_roles-Since req (forget req r.instances) h s
  reconcile_fetched-Since req r h (failed e) s = s

-- Whatever Reconcile is called for and whatever the server replies, every request that a call makes
-- finds what it needs among the earlier requests of that call: a workload its service account, the
-- config maps and claims that its volumes name, and, for each replica of a stateful set, the claim
-- with the name that the replica's pod looks for; a binding its role and its service accounts; an
-- ingress its service.
pub reconcile-Since :
    (K : Kube) (env : Environment K) (server : Server K) (req : Key) (reconciler : Reconciler)
    → Since Ready [] (reconcile K env server req reconciler []).history
unfolding reconcile
reconcile-Since K env server req reconciler =
    reconcile_fetched-Since K env server [] req reconciler _ (server.telemetry [] req.0 req.1)
      (Since-cons Ready [] _ [] tt (Since-base Ready []))
