-- ===== src/Reconcile/Shards.antt =====
-- The requests for ClickHouse's shards: what they need has been asked for.
use Prim.Native.String.{◌++◌}
use text.Mathlib.TextLemmas.{append_assoc}
use mathlib.Core.Path.{subst}
use mathlib.Core.List.{Memᴰ}
use telemetry_operator.Base.{
  ℤ, pos, negsuc, zero, suc, ◌≤◌, ◌≡◌, refl, sym, ap, ◌∙◌, ℕ, ◌+◌, ◌<◌, String, true, false,
  is_some, ◌∷◌, arith, rounds, if_intro,
}
use telemetry_operator.Base.Text.{show}
use telemetry_operator.Kube.{Kube}
use telemetry_operator.Api.Telemetry.{Telemetry}
use telemetry_operator.Objects.{PersistentVolumeClaim}
use telemetry_operator.Cluster as C
use telemetry_operator.Cluster.{History, create_or_update}
use telemetry_operator.Validate.{Outcome, returned, panicked}
use telemetry_operator.Validate.Returns.{did_return}
use telemetry_operator.Validate.Frame.{is_negative}
use telemetry_operator.Builders.Rights.{scc_nonroot}
use telemetry_operator.Builders.Labels.{one_if_zero}
use telemetry_operator.Builders.Pod.{first}
use telemetry_operator.Builders.Stores.{clickhouse_pvcs, clickhouse_service_headless}
use telemetry_operator.Builders.Databases.{
  clickhouse_replicas, one_if_not_positive, clickhouse_set, clickhouse_sets,
  clickhouse_stateful_sets,
}
use telemetry_operator.Builders.Sets.{did_return-clickhouse_pvcs}
use telemetry_operator.Reconcile.Requests.{create_or_update_service_account}
use telemetry_operator.Reconcile.Calls.{
  Environment, ask, issue, pvc_calls, stateful_set_calls, keeper_block, clickhouse_block,
  clickhouse_calls,
}
use telemetry_operator.Reconcile.Since.{Fits, Safe, Extends, issue-Extends, Safe-append, Safe-map}
use telemetry_operator.Reconcile.Ready.{
  Ready, ObjectReady, HasAccount, HasClaim, keeps_account, keeps_claim,
}
use telemetry_operator.Reconcile.Agents.{
  HasRoles, Extends-HasRoles, service_account-Fits, service_account-HasAccount,
}
use telemetry_operator.Builders.Counting.{count_up-Memᴰ_inv, rows-Memᴰ, rounds_le}
use telemetry_operator.Reconcile.Claims.{ordinal_name, pvc_calls-HasClaim, pvc_calls-Safe}
use telemetry_operator.Reconcile.Databases.{keeper_block-Safe}

shards_le :
    (z : ℤ) → is_negative z ≡ false → rounds (one_if_not_positive z) ≤ rounds (one_if_zero z)
shards_le (pos zero) h = omega arith
shards_le (pos (suc n)) h = omega arith
shards_le (negsuc n) h = cc

module _ (K : Kube) (env : Environment K) (cr : Telemetry K) where
  abbrev shard_claim : ℕ → ℕ → String
  shard_claim shard i =
      "data" ++ "-" ++ (cr.name ++ "-clickhouse-shard-" ++ show shard) ++ "-" ++ show i

  clickhouse_pvcs-HasClaim :
      (policy : String) (h : History K) (shard i : ℕ)
      → is_negative cr.spec.clickhouse.replicas ≡ false
      → shard < rounds (one_if_zero cr.spec.clickhouse.shards)
      → i < rounds (clickhouse_replicas K cr)
      → HasClaim
          (issue (pvc_calls K env (clickhouse_pvcs K cr) policy) h).1
          cr.namespace
          (shard_claim shard i)
  unfolding clickhouse_pvcs clickhouse_replicas
  clickhouse_pvcs-HasClaim policy h shard i positive below less =
      let joined : "data-" ++ cr.name ++ "-clickhouse-shard-" ++ show shard ++ "-" ++ show i
          ≡ shard_claim shard i =
        ap (λ t. "data-" ++ cr.name ++ t)
          (sym (append_assoc "-clickhouse-shard-" (show shard) ("-" ++ show i)))
        ∙ ordinal_name cr.name ("-clickhouse-shard-" ++ show shard) i in
      let same : 0 + shard ≡ shard = omega arith in
      let present =
        rows-Memᴰ _ (rounds (one_if_zero cr.spec.clickhouse.replicas)) 0
          (rounds (one_if_zero cr.spec.clickhouse.shards)) shard i below
          (let le = rounds_le cr.spec.clickhouse.replicas positive in omega arith) in
      subst (HasClaim (issue (pvc_calls K env (clickhouse_pvcs K cr) policy) h).1 cr.namespace)
        (ap (λ n. "data-" ++ cr.name ++ "-clickhouse-shard-" ++ show n ++ "-" ++ show i) same
          ∙ joined)
        (pvc_calls-HasClaim K env (clickhouse_pvcs K cr) policy h _ present)

  clickhouse_set-Ready :
      (claim : PersistentVolumeClaim K) (shard : ℕ) (h : History K)
      → HasAccount h cr.namespace (cr.name ++ "-clickhouse")
      → ((i : ℕ)
          → i < rounds (clickhouse_replicas K cr)
          → HasClaim h cr.namespace (shard_claim shard i))
      → ObjectReady (C.stateful_set (clickhouse_set K env.versions env.registry cr claim shard)) h
  clickhouse_set-Ready claim shard h account claims =
      ((account, (tt, tt)), λ i less. (claims i less, tt))

  clickhouse_sets-Safe :
      (claim : Outcome (PersistentVolumeClaim K)) (h : History K)
      → HasAccount h cr.namespace (cr.name ++ "-clickhouse")
      → (did_return claim ≡ true
          → (shard i : ℕ) → shard < rounds (one_if_not_positive cr.spec.clickhouse.shards)
          → i < rounds (clickhouse_replicas K cr)
          → HasClaim h cr.namespace (shard_claim shard i))
      → Safe Ready
          (stateful_set_calls K env (clickhouse_sets K env.versions env.registry cr claim))
          h
  unfolding Safe
  clickhouse_sets-Safe panicked h account claims = tt
  clickhouse_sets-Safe (returned claim) h account claims =
      let set = clickhouse_set K env.versions env.registry cr claim in
      Safe-map Ready (λ s. create_or_update (C.stateful_set s) false) _ h
        (λ s m h' x.
          let (shard, below, e) = count_up-Memᴰ_inv set 0 _ s m in
          subst (λ t. ObjectReady (C.stateful_set t) h') (sym e)
            (clickhouse_set-Ready claim shard h' (keeps_account x _ _ account)
              (λ i less. keeps_claim x _ _ (claims refl shard i (omega arith) less))))

  clickhouse_block-Safe :
      (h : History K) → HasRoles K cr h → Safe Ready (clickhouse_block K env cr) h
  unfolding Safe Fits clickhouse_stateful_sets
  clickhouse_block-Safe h (nonroot, privileged) =
      let policy = cr.spec.clickhouse.storage.reclaim_policy in
      let pvcs = pvc_calls K env (clickhouse_pvcs K cr) policy in
      let h1 = ask (create_or_update_service_account K cr "clickhouse" scc_nonroot) h in
      let h2 : History K =
        create_or_update (C.service (clickhouse_service_headless K cr)) false ∷ h1 in
      let after_account : Extends h1 (issue pvcs h2).1 =
        λ r m. issue-Extends pvcs h2 r (Memᴰ.tail m) in
      let returns = did_return-clickhouse_pvcs K cr in
      (
        service_account-Fits K cr "clickhouse" scc_nonroot h nonroot,
        (
          (tt, tt),
          Safe-append Ready pvcs _ h2 (pvc_calls-Safe K env _ policy h2) (
              Safe-append Ready (stateful_set_calls K env _) _ (issue pvcs h2).1
                (clickhouse_sets-Safe (first (clickhouse_pvcs K cr)) (issue pvcs h2).1
                  (keeps_account after_account _ _
                    (service_account-HasAccount K cr "clickhouse" scc_nonroot h))
                  (λ d shard i below less.
                    let shards = shards_le cr.spec.clickhouse.shards (ground (arith, returns, d)) in
                    clickhouse_pvcs-HasClaim policy h2 shard i (ground (arith, returns, d))
                      (omega arith) less))
                ((tt, tt), tt)),
        ),
      )

  -- What ClickHouse and its keeper need is asked for before them.
  pub clickhouse_calls-Safe :
      (h : History K) → HasRoles K cr h → Safe Ready (clickhouse_calls K env cr) h
  unfolding clickhouse_calls Safe
  clickhouse_calls-Safe h roles =
      if_intro (λ l. Safe Ready l h) (is_some cr.spec.external_clickhouse) _ _ (λ _. tt)
        (λ _. Safe-append Ready (keeper_block K env cr) _ h (keeper_block-Safe K env cr h roles) (
          clickhouse_block-Safe _
            (Extends-HasRoles K cr h _ (issue-Extends (keeper_block K env cr) h) roles)))
