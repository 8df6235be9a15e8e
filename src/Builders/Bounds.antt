-- ===== src/Builders/Bounds.antt =====
-- The numbers of replicas that the stateful sets ask for.
use mathlib.Core.Path.{subst}
use telemetry_operator.Base.{
  ◌≡◌, refl, ap, ℤ, pos, negsuc, ℕ, zero, suc, ◌<◌, ◌≤◌, ◌^◌, String, List, [], arith, is_positive,
  rounds, if◌then◌else◌, ltb, Bool-cases, inl, inr,
}
use telemetry_operator.Base.Int.{int32, bits32}
use telemetry_operator.Base.Predicates.{All, All-map}
use telemetry_operator.Kube.{Kube}
use telemetry_operator.Api.Telemetry.{Telemetry}
use telemetry_operator.Objects.{PersistentVolumeClaim, StatefulSet, Volume}
use telemetry_operator.ConfigEnvs.{ConfigEnvs}
use telemetry_operator.Registry.{RegistryConfig}
use telemetry_operator.Versions.{Versions}
use telemetry_operator.Validate.{Outcome, returned, panicked}
use telemetry_operator.Builders.Declared.{value_or}
use telemetry_operator.Builders.Server.{server_replicas, server_set, telemetry_stateful_set}
use telemetry_operator.Builders.Databases.{
  clickhouse_replicas, clickhouse_set, clickhouse_sets, clickhouse_stateful_sets,
}

-- A positive number of 32 bits with a sign.
abbrev pub InRange : ℤ → Type 0
InRange z = (n : ℕ) × (z ≡ pos n) × (1 ≤ n) × (n < 2 ^ 31)

negsuc≢pos : {k n : ℕ} → negsuc k ≡ pos n → ⊥
negsuc≢pos e = cc

int32_lt : (z : ℤ) (n : ℕ) → int32 z ≡ pos n → n < 2 ^ 31
unfolding int32
int32_lt z n e = elim (Bool-cases (ltb (bits32 z) (2 ^ 31))) [
  | inl small ↦ let same : bits32 z ≡ n = ap rounds (rw small at e) in ground (arith, small, same)
  | inr large ↦ absurd (negsuc≢pos (rw large at e))
]

clamped : (z k : ℤ) → int32 z ≡ k → InRange (if is_positive k then k else pos 1)
clamped z (pos zero) e = (1, refl, omega arith, omega arith)
clamped z (pos (suc n)) e = (suc n, refl, omega arith, int32_lt z (suc n) e)
clamped z (negsuc n) e = (1, refl, omega arith, omega arith)

module _ (K : Kube) (versions : Versions) (registry : RegistryConfig) (cr : Telemetry K) where
  server_set-InRange :
      (envs : ConfigEnvs) (hash : String) (tls : Outcome (List Volume))
      (claim : Outcome (PersistentVolumeClaim K)) (s : StatefulSet K)
      → server_set K versions registry cr envs hash tls claim ≡ returned s
      → InRange s.replicas
  unfolding server_replicas
  server_set-InRange envs hash panicked claim s e = cc
  server_set-InRange envs hash (returned tls) panicked s e = cc
  server_set-InRange envs hash (returned tls) (returned claim) s e =
      subst (λ x. InRange x.replicas) (ap (value_or s) e) (clamped cr.spec.replicas _ refl)

  clickhouse_sets-InRange :
      (claim : Outcome (PersistentVolumeClaim K)) (sets : List (StatefulSet K))
      → clickhouse_sets K versions registry cr claim ≡ returned sets
      → All (λ s. InRange s.replicas) sets
  unfolding clickhouse_replicas
  clickhouse_sets-InRange panicked sets e = cc
  clickhouse_sets-InRange (returned claim) sets e =
      subst (All (λ s. InRange s.replicas)) (ap (value_or []) e) (
        All-map _ (clickhouse_set K versions registry cr claim) _
          (λ shard. clamped cr.spec.clickhouse.replicas _ refl))

-- Whatever numbers of replicas the resource asks for, the stateful set of the server and those of all
-- ClickHouse shards, where they can be built, ask for at least one replica and for fewer than 2^31.
pub stateful_sets-InRange :
    (K : Kube) (versions : Versions) (registry : RegistryConfig) (cr : Telemetry K)
    (envs : ConfigEnvs) (hash : String) (s : StatefulSet K) (sets : List (StatefulSet K))
    → telemetry_stateful_set K versions registry cr envs hash ≡ returned s
    → clickhouse_stateful_sets K versions registry cr ≡ returned sets
    → InRange s.replicas × All (λ t. InRange t.replicas) sets
unfolding telemetry_stateful_set clickhouse_stateful_sets
stateful_sets-InRange K versions registry cr envs hash s sets e f = (
  server_set-InRange K versions registry cr envs hash _ _ s e,
  clickhouse_sets-InRange K versions registry cr _ sets f,
)
