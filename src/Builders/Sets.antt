-- ===== src/Builders/Sets.antt =====
-- The stateful sets of ClickHouse and its keeper: when they can be built, and what they look like.
use mathlib.Core.List.{flat_map, map}
use telemetry_operator.Base.{
  ◌≡◌, refl, ◌∙◌, ℤ, pos, negsuc, ℕ, zero, suc, true, not, ◌&&◌, rounds, if◌then◌else◌, is_positive,
}
use telemetry_operator.Kube.{Kube}
use telemetry_operator.Api.Telemetry.{Telemetry}
use telemetry_operator.Objects.{PersistentVolumeClaim}
use telemetry_operator.Registry.{RegistryConfig}
use telemetry_operator.Versions.{Versions}
use telemetry_operator.Validate.{Outcome, returned, panicked}
use telemetry_operator.Validate.Returns.{did_return}
use telemetry_operator.Validate.Frame.{is_negative}
use telemetry_operator.Builders.Labels.{count_up, one_if_zero}
use telemetry_operator.Builders.Stores.{
  clickhouse_pvcs, clickhouse_keeper_pvcs, clickhouse_keeper_replicas,
}
use telemetry_operator.Builders.Pod.{first}
use telemetry_operator.Builders.Databases.{
  clickhouse_sets, clickhouse_stateful_sets, keeper_set, clickhouse_keeper_stateful_set,
}

-- Rows of a number that may be negative.
did_return-first_rows :
    {A : Type 0} (f : ℕ → ℕ → A) (start n : ℕ) (r : ℤ)
    → did_return (
        first (
          flat_map (λ a. map (f a) (count_up 0 (rounds (one_if_zero r)))) (count_up start (suc n))))
      ≡ not (is_negative r)
unfolding count_up flat_map
did_return-first_rows f start n (pos zero) = refl
did_return-first_rows f start n (pos (suc r)) = refl
did_return-first_rows f start zero (negsuc r) = refl
did_return-first_rows f start (suc n) (negsuc r) = did_return-first_rows f (suc start) n (negsuc r)

did_return-first_claim :
    {A : Type 0} (f : ℕ → ℕ → A) (s r : ℤ)
    → did_return (
        first (
          flat_map
            (λ a. map (f a) (count_up 0 (rounds (one_if_zero r))))
            (count_up 0 (rounds (one_if_zero s)))))
      ≡ (not (is_negative s) && not (is_negative r))
unfolding count_up flat_map
did_return-first_claim f (pos zero) r = did_return-first_rows f 0 0 r
did_return-first_claim f (pos (suc s)) r = did_return-first_rows f 0 s r
did_return-first_claim f (negsuc s) r = refl

pub did_return-clickhouse_pvcs :
    (K : Kube) (cr : Telemetry K)
    → did_return (first (clickhouse_pvcs K cr)) ≡ (
        not (is_negative cr.spec.clickhouse.shards)
        && not (is_negative cr.spec.clickhouse.replicas))
unfolding clickhouse_pvcs
did_return-clickhouse_pvcs K cr =
    did_return-first_claim _ cr.spec.clickhouse.shards cr.spec.clickhouse.replicas

did_return-first_keeper :
    {A : Type 0} (f : ℕ → A) (z : ℤ)
    → did_return (first (map f (count_up 0 (rounds (if is_positive z then z else pos 3))))) ≡ true
unfolding count_up
did_return-first_keeper f (pos zero) = refl
did_return-first_keeper f (pos (suc n)) = refl
did_return-first_keeper f (negsuc n) = refl

module _ (K : Kube) (versions : Versions) (registry : RegistryConfig) where
  did_return-clickhouse_sets :
      (cr : Telemetry K) (claim : Outcome (PersistentVolumeClaim K))
      → did_return (clickhouse_sets K versions registry cr claim) ≡ did_return claim
  did_return-clickhouse_sets cr panicked = refl
  did_return-clickhouse_sets cr (returned claim) = refl

  -- clickhouseStatefulSets returns exactly when neither the number of shards nor that of replicas
  -- is negative; otherwise it panics.
  pub did_return-clickhouse_stateful_sets :
      (cr : Telemetry K)
      → did_return (clickhouse_stateful_sets K versions registry cr) ≡ (
          not (is_negative cr.spec.clickhouse.shards)
          && not (is_negative cr.spec.clickhouse.replicas))
  unfolding clickhouse_stateful_sets
  did_return-clickhouse_stateful_sets cr =
      did_return-clickhouse_sets cr _ ∙ did_return-clickhouse_pvcs K cr

  did_return-keeper_set :
      (cr : Telemetry K) (replicas : ℤ) (claim : Outcome (PersistentVolumeClaim K))
      → did_return (keeper_set K versions registry cr replicas claim) ≡ did_return claim
  did_return-keeper_set cr replicas panicked = refl
  did_return-keeper_set cr replicas (returned claim) = refl

  -- clickhouseKeeperStatefulSet always returns.
  pub did_return-clickhouse_keeper_stateful_set :
      (cr : Telemetry K) → did_return (clickhouse_keeper_stateful_set K versions registry cr) ≡ true
  unfolding clickhouse_keeper_stateful_set clickhouse_keeper_pvcs clickhouse_keeper_replicas
  did_return-clickhouse_keeper_stateful_set cr =
      did_return-keeper_set cr _ _ ∙ did_return-first_keeper _ cr.spec.clickhouse.keeper.replicas
