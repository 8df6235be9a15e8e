-- ===== src/Apply/Generated.antt =====
-- controller/utils.go, RandomString, and controller/controller.go: what the other CreateOrUpdate
-- functions change in the object that the cluster has. crypto/rand is a parameter: the numbers that
-- rand.Int returns, one after the other.
use Prim.Native.String as S
use Prim.Native.String.{◌++◌}
use telemetry_operator.Base.{
  ◌≡◌, ℕ, zero, suc, ◌+◌, String, ◌||◌, none, some, is_some, List, [], ◌∷◌, arith, ◌==◌, eq_iff,
  if◌then◌else◌,
}
use telemetry_operator.Base.Map.{lookup, insert, lookup-insert}
use telemetry_operator.Kube.{Kube, StringMap}
use telemetry_operator.Objects.{ConfigMap, Role, StatefulSet}
use telemetry_operator.Builders.Access.{names}

abbrev pub random_string_charset : String
random_string_charset = "abcdefghijklmnopqrstuvwxyzABCDEFGHIJKLMNOPQRSTUVWXYZ0123456789"

-- s[i] as a text, and "" behind the end (an index that rand.Int does not return).
unfoldable pub byte_at : String → ℕ → String
byte_at S.[] i = ""
byte_at (S.◌∷◌ c s) zero = S.◌∷◌ c S.[]
byte_at (S.◌∷◌ c s) (suc i) = byte_at s i

-- RandomString, from the draw `start` on.
unfoldable pub random_string : (ℕ → ℕ) → ℕ → ℕ → String
unfolding byte_at
random_string draws start zero = ""
random_string draws start (suc length) =
    byte_at random_string_charset (draws start) ++ random_string draws (suc start) length

-- One key of the closure of CreateOrUpdateSecret: the data, and the number of draws so far.
abbrev pub with_key : (ℕ → ℕ) → ℕ → String → StringMap × ℕ → StringMap × ℕ
with_key draws length key (data_map, start) =
    if is_some (lookup key data_map)
    then (data_map, start)
    else (insert key (random_string draws start length) data_map, start + length)

-- The data that CreateOrUpdateSecret leaves in the secret.
unfoldable pub secret_target : (ℕ → ℕ) → ℕ → List String → StringMap × ℕ → StringMap × ℕ
unfolding random_string
secret_target draws length [] state = state
secret_target draws length (key ∷ keys) state =
    secret_target draws length keys (with_key draws length key state)

-- The closures of CreateOrUpdateConfigMap, CreateOrUpdateRole and CreateOrUpdateClusterRole, and what
-- that of CreateOrUpdateStatefulSet keeps of the set whose specification is merged.
abbrev pub config_map_target : ConfigMap → ConfigMap → ConfigMap
config_map_target current target = record current { binary_data = target.binary_data }

abbrev pub role_target : Role → Role → Role
role_target current target = record current { rules = target.rules }

abbrev pub stateful_set_target : {K : Kube} → StatefulSet K → StatefulSet K → StatefulSet K
stateful_set_target current merged = record merged {
  volume_claim_templates = current.volume_claim_templates;
}

-- What one key changes for a lookup.
with_key_lem :
    (draws : ℕ → ℕ) (length : ℕ) (added key : String) (data_map : StringMap) (start : ℕ)
    → lookup key (with_key draws length added (data_map, start)).0 ≡ (
        if is_some (lookup key data_map)
        then lookup key data_map
        else if added == key
        then some (random_string draws start length)
        else none)
with_key_lem draws length added key data_map start =
    ground
      (arith, lookup-insert added key (random_string draws start length) data_map, eq_iff added key)

-- CreateOrUpdateSecret never changes a value that the secret has, and afterwards the secret has a
-- value for exactly the keys that it had before and those that were asked for.
pub secret_target-keeps :
    (draws : ℕ → ℕ) (length : ℕ) (keys : List String) (data_map : StringMap) (start : ℕ)
    (key : String)
    → ((if is_some (lookup key data_map)
          then lookup key (secret_target draws length keys (data_map, start)).0
          else none)
        ≡ lookup key data_map)
      × (is_some (lookup key (secret_target draws length keys (data_map, start)).0)
          ≡ (is_some (lookup key data_map) || names key keys))
unfolding secret_target names
secret_target-keeps draws length [] data_map start key = ground arith
secret_target-keeps draws length (added ∷ keys) data_map start key =
    let (next, drawn) = with_key draws length added (data_map, start) in
    let (kept, there) = secret_target-keeps draws length keys next drawn key in
    ground (arith, kept, there, with_key_lem draws length added key data_map start)
