-- ===== src/Reconcile/Databases.antt =====
-- The requests for ClickHouse and its keeper: what they need has been asked for.
use Prim.Native.String.{◌++◌}
use text.Mathlib.TextLemmas.{append_assoc}
use mathlib.Core.Path.{subst}
use mathlib.Core.List.{Memᴰ}
use telemetry_operator.Base.{◌≡◌, ap, ◌∙◌, ℕ, ◌<◌, String, false, [], ◌∷◌, arith, rounds}
use telemetry_operator.Base.Int.{int32}
use telemetry_operator.Base.Text.{show}
use telemetry_operator.Kube.{Kube}
use telemetry_operator.Api.Telemetry.{Telemetry}
use telemetry_operator.Objects.{PersistentVolumeClaim, StatefulSet}
use telemetry_operator.Cluster as C
use telemetry_operator.Cluster.{History, create_or_update}
use telemetry_operator.Validate.{Outcome, returned, panicked}
use telemetry_operator.Builders.Rights.{scc_nonroot}
use telemetry_operator.Builders.Stores.{
  clickhouse_keeper_pvcs, clickhouse_keeper_replicas, clickhouse_keeper_service_headless,
}
use telemetry_operator.Builders.Declared.{value_or}
use telemetry_operator.Builders.Databases.{keeper_set, clickhouse_keeper_stateful_set}
use telemetry_operator.Reconcile.Requests.{
  create_or_update_service_account, create_or_update_secret,
}
use telemetry_operator.Reconcile.Calls.{Environment, ask, issue, pvc_calls, keeper_block}
use telemetry_operator.Reconcile.Since.{Fits, Safe, Extends, issue-Extends, Safe-append}
use telemetry_operator.Reconcile.Ready.{
  Ready, ObjectReady, HasAccount, HasClaim, keeps_account, keeps_role,
}
use telemetry_operator.Reconcile.Agents.{HasRoles, service_account-Fits, service_account-HasAccount}
use telemetry_operator.Builders.Counting.{row-Memᴰ, rounds-int32_keeper}
use telemetry_operator.Reconcile.Claims.{
  ordinal_name, pvc_calls-HasClaim, pvc_calls-Safe, stateful_set_call-Safe,
}

module _ (K : Kube) (env : Environment K) (cr : Telemetry K) where
  abbrev keeper_claim : ℕ → String
  keeper_claim i = "data" ++ "-" ++ (cr.name ++ "-clickhouse-keeper") ++ "-" ++ show i

  keeper_pvcs-HasClaim :
      (policy : String) (h : History K) (i : ℕ)
      → i < rounds (int32 (clickhouse_keeper_replicas K cr))
      → HasClaim
          (issue (pvc_calls K env (clickhouse_keeper_pvcs K cr) policy) h).1
          cr.namespace
          (keeper_claim i)
  unfolding clickhouse_keeper_pvcs clickhouse_keeper_replicas
  keeper_pvcs-HasClaim policy h i less =
      let joined : "data-" ++ cr.name ++ "-clickhouse-keeper-" ++ show i ≡ keeper_claim i =
        ap (λ t. "data-" ++ cr.name ++ t) (append_assoc "-clickhouse-keeper" "-" (show i))
        ∙ ordinal_name cr.name "-clickhouse-keeper" i in
      let present =
        row-Memᴰ _ (rounds (clickhouse_keeper_replicas K cr)) i
          (let le = rounds-int32_keeper cr.spec.clickhouse.keeper.replicas in omega arith) in
      subst
        (HasClaim (issue (pvc_calls K env (clickhouse_keeper_pvcs K cr) policy) h).1 cr.namespace)
        joined (pvc_calls-HasClaim K env (clickhouse_keeper_pvcs K cr) policy h _ present)

  keeper_set-Ready :
      (h : History K) (s : StatefulSet K) (claim : Outcome (PersistentVolumeClaim K))
      → keeper_set K env.versions env.registry cr (int32 (clickhouse_keeper_replicas K cr)) claim
        ≡ returned s
      → HasAccount h cr.namespace (cr.name ++ "-clickhouse-keeper")
      → ((i : ℕ)
          → i < rounds (int32 (clickhouse_keeper_replicas K cr))
          → HasClaim h cr.namespace (keeper_claim i))
      → ObjectReady (C.stateful_set s) h
  keeper_set-Ready h s panicked e account claims = cc
  keeper_set-Ready h s (returned claim) e account claims =
      subst (λ x. ObjectReady (C.stateful_set x) h) (ap (value_or s) e)
        ((account, (tt, tt)), λ i less. (claims i less, tt))

  pub keeper_block-Safe : (h : History K) → HasRoles K cr h → Safe Ready (keeper_block K env cr) h
  unfolding Safe Fits create_or_update_secret clickhouse_keeper_stateful_set
  keeper_block-Safe h (nonroot, privileged) =
      let policy = cr.spec.clickhouse.keeper.storage.reclaim_policy in
      let pvcs = pvc_calls K env (clickhouse_keeper_pvcs K cr) policy in
      let h1 =
        ask (create_or_update_secret K cr (cr.name ++ "-clickhouse") ("password" ∷ []) 16 false)
          h in
      let h2 = ask (create_or_update_service_account K cr "clickhouse-keeper" scc_nonroot) h1 in
      let h3 : History K =
        create_or_update (C.service (clickhouse_keeper_service_headless K cr)) false ∷ h2 in
      let after_account : Extends h2 (issue pvcs h3).1 =
        λ r m. issue-Extends pvcs h3 r (Memᴰ.tail m) in
      (
        (tt, tt),
        (
          service_account-Fits K cr "clickhouse-keeper" scc_nonroot h1
              (keeps_role (λ r m. Memᴰ.tail m) _ _ nonroot),
          (
            (tt, tt),
            Safe-append Ready pvcs _ h3 (pvc_calls-Safe K env _ policy h3) (
                stateful_set_call-Safe K env Ready _ [] _
                  (λ s e.
                    keeper_set-Ready _ s _ e
                      (keeps_account after_account _ _
                        (service_account-HasAccount K cr "clickhouse-keeper" scc_nonroot h1))
                      (keeper_pvcs-HasClaim policy h3))
                  (λ h'. tt)),
          ),
        ),
      )
