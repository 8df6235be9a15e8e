-- ===== src/Validate/Secrets.antt =====
-- controller/controller.go, GetSecret, and the treatment that validateTelemetry gives every field
-- whose value may come from a secret.
use Prim.Native.String
use telemetry_operator.Base.{String, Option, none, some, ◌∷◌}
use telemetry_operator.Base.Map.{lookup}
use telemetry_operator.Kube.{Kube, StringMap, SecretKeySelector}
use telemetry_operator.Cluster.{Server, Result, ok, err, get_secret as get_secret_request}
use telemetry_operator.ConfigEnvs
use telemetry_operator.Validate.Context.{
  Step, Outcome, returned, panicked, pure, ◌>>=◌, ◌>>◌, log_err,
}

-- The value under the selector's key.
abbrev value_at : SecretKeySelector → Result StringMap → Result String
value_at selector (err e) = err e
value_at selector (ok data_map) = elim (lookup selector.key data_map) [
  | some value ↦ ok value
  | none ↦ err (
      String.◌++◌ "key '" (
        String.◌++◌ selector.key
          (String.◌++◌ "' not found in secret '" (String.◌++◌ selector.name "'"))))
]

module _ {K : Kube} (server : Server K) (namespace : String) where
  unfoldable pub get_secret : SecretKeySelector → Step K (Result String)
  get_secret selector c = (
    value_at selector (server.secret_data c.history namespace selector.name),
    record c { history = get_secret_request namespace selector.name ∷ c.history },
  )

  -- GetSecret of a pointer, which it dereferences.
  unfoldable pub get_secret_of : Option SecretKeySelector → Step K (Outcome (Result String))
  unfolding get_secret
  get_secret_of none = pure panicked
  get_secret_of (some selector) = do r ← get_secret selector; pure (returned r)

-- configEnvs.Add
unfoldable pub add_env : {K : Kube} → SecretKeySelector → Step K String
unfolding ConfigEnvs.add
add_env selector c =
    let (ref, envs) = ConfigEnvs.add selector c.config_envs in
    (ref, record c { config_envs = envs })

-- The error is logged between `prefix` and `suffix`, and the value stays; or the value becomes a
-- reference to the secret.
abbrev pub use_secret :
    {K : Kube} → String → String → String → SecretKeySelector → Result String → Step K String
use_secret prefix suffix value selector (err e) = do
  log_err (String.◌++◌ prefix (String.◌++◌ e suffix))
  pure value
use_secret prefix suffix value selector (ok _) = add_env selector

module _ {K : Kube} (server : Server K) (namespace : String) where
  -- The value that a field has after its secret, if it names one, has been resolved. The pointer
  -- to the secret is then nil in any case.
  unfoldable pub resolve : String → String → String → Option SecretKeySelector → Step K String
  unfolding get_secret log_err add_env
  resolve prefix suffix value none = pure value
  resolve prefix suffix value (some selector) = do
    r ← get_secret server namespace selector
    use_secret prefix suffix value selector r
