-- ===== src/Validate/Context.antt =====
-- The variables of validateTelemetry that its steps share, and the steps as actions on them.
use telemetry_operator.Base.{String, List, [], ◌∷◌, ◌++◌}
use telemetry_operator.Kube.{Kube}
use telemetry_operator.Cluster.{History}
use telemetry_operator.ConfigEnvs.{ConfigEnvs}

pub record Context (K : Kube) : Type 0 where
  pub config_envs : ConfigEnvs
  pub errors : List String
  -- the map from a secret's name to the keys that it must hold
  pub api_key_secrets : List (String × List String)
  pub history : History K

-- A step returns its result and the new variables.
abbrev pub Step : Kube → Type 0 → Type 0
Step K A = Context K → A × Context K

-- A value, or a run-time panic (here: a dereference of nil, or an index out of range).
pub data Outcome {ℓ} (A : Type ℓ) : Type ℓ where
  returned : A → Outcome A
  panicked : Outcome A

module _ {K : Kube} {A : Type 0} where
  abbrev pub pure : A → Step K A
  pure a c = (a, c)

module _ {K : Kube} {A B : Type 0} where
  infixl 5 ◌>>=◌
  abbrev pub ◌>>=◌ : Step K A → (A → Step K B) → Step K B
  ◌>>=◌ m f c = let (a, c') = m c in f a c'

-- The closure logErr, without the line that it writes to the log.
unfoldable pub log_err : {K : Kube} → String → Step K (Unit {0})
log_err e c = (tt, record c { errors = c.errors ++ e ∷ [] })

module _ {K : Kube} {B : Type 0} where
  infixl 5 ◌>>◌
  abbrev pub ◌>>◌ : Step K (Unit {0}) → Step K B → Step K B
  m >> k = m >>= λ _. k
