-- ===== src/Builders/Pod.antt =====
-- What the pod templates of the components share: environment variables (envVarFromSecret of
-- controller/utils.go), and the port of a listen address (strings.Cut, strconv.Atoi).
use Prim.Native.Nat.{◌-◌, ◌^◌}
use Prim.Native.Char.{code}
use Prim.Native.String as S
use telemetry_operator.Base.{
  ℤ, pos, negsuc, ℕ, zero, suc, ◌+◌, ◌*◌, String, Bool, true, false, ◌&&◌, Option, none, some, List,
  [], ◌∷◌, leb, eqb, if◌then◌else◌,
}
use Prim.Native.String.{◌++◌}
use telemetry_operator.Kube.{Kube, SecretKeySelector, EnvVar, secret_key_ref}
use telemetry_operator.Objects.{
  PersistentVolumeClaim, ContainerPort, VolumeMount, Volume, empty_dir, Probe,
}
use telemetry_operator.Validate.{Outcome, returned, panicked}

module _ (K : Kube) where
  -- corev1.EnvVar{Name: name, Value: value}
  abbrev pub env_value : String → String → EnvVar K
  env_value name value = record { name = name; value = value; value_from = none }

  -- envVarFromSecret
  unfoldable pub env_var_from_secret : String → Option SecretKeySelector → String → EnvVar K
  env_var_from_secret name none plain_text_value = env_value name plain_text_value
  env_var_from_secret name (some secret) plain_text_value = record {
    name = name;
    value = "";
    value_from = some (secret_key_ref secret);
  }

  -- A variable where the guard holds.
  abbrev pub env_if : Bool → String → String → List (EnvVar K)
  env_if b name value = if b then env_value name value ∷ [] else []

-- cmp.Or(s, default)
abbrev pub or_text : String → String → String
or_text S.[] default = default
or_text (S.◌∷◌ c s) default = S.◌∷◌ c s

-- The text behind the first colon, or "" if there is none: `_, after, _ := strings.Cut(s, ":")`.
unfoldable pub after_colon : String → String
after_colon S.[] = ""
after_colon (S.◌∷◌ c s) = let rest = after_colon s in if eqb (code c) b':' then s else rest

-- The value of decimal digits behind the value so far.
unfoldable pub digits_value : ℕ → String → Option ℕ
digits_value n S.[] = some n
digits_value n (S.◌∷◌ c s) =
    let rest = digits_value (n * 10 + (code c - 48)) s in
    if leb 48 (code c) && leb (code c) 57 then rest else none

-- Whether the value reaches 2^64 before a character that is no digit: ParseUint stops there.
unfoldable pub overflows : ℕ → String → Bool
overflows n S.[] = false
overflows n (S.◌∷◌ c s) =
    let value = n * 10 + (code c - 48) in
    let rest = overflows value s in
    if leb 48 (code c) && leb (code c) 57
    then (if leb (2 ^ 64) value then true else rest)
    else false

abbrev some_digits : String → Option ℕ
some_digits S.[] = none
some_digits (S.◌∷◌ c s) =
    if overflows 0 (S.◌∷◌ c s) then some (2 ^ 64) else digits_value 0 (S.◌∷◌ c s)

-- The value of Atoi with its error ignored: 0 for what is no number, and the nearest bound of a
-- 64-bit integer for what is out of range.
abbrev positive_value : Option ℕ → ℤ
positive_value none = pos 0
positive_value (some n) = if leb n (2 ^ 63 - 1) then pos n else pos (2 ^ 63 - 1)

abbrev negative_value : Option ℕ → ℤ
negative_value none = pos 0
negative_value (some zero) = pos 0
negative_value (some (suc n)) = if leb n (2 ^ 63 - 1) then negsuc n else negsuc (2 ^ 63 - 1)

unfoldable pub atoi : String → ℤ
unfolding digits_value overflows
atoi S.[] = pos 0
atoi (S.◌∷◌ c s) =
    if eqb (code c) b'-'
    then negative_value (some_digits s)
    else if eqb (code c) b'+'
    then positive_value (some_digits s)
    else positive_value (some_digits (S.◌∷◌ c s))

-- The text of a template whose lines follow a line break each, with one at the end.
unfoldable pub lines_text : List String → String
lines_text [] = "\n"
lines_text (l ∷ lines) = "\n" ++ l ++ lines_text lines

-- A volume of the pod's own.
abbrev pub empty_volume : String → Volume
empty_volume name = record { name = name; source = empty_dir }

abbrev pub mount : String → String → VolumeMount
mount name path = record { name = name; mount_path = path; read_only = false }

-- The first element; an index out of range is a panic.
abbrev pub first : {A : Type 0} → List A → Outcome A
first [] = panicked
first (x ∷ l) = returned x

abbrev pub container_port : String → ℤ → ContainerPort
container_port name port = record { name = name; container_port = port; protocol = "TCP" }

-- A claim template with the specification of the claim.
abbrev pub data_template : {K : Kube} → String → PersistentVolumeClaim K → PersistentVolumeClaim K
data_template namespace claim = record {
  meta = record { name = "data"; namespace = namespace; labels = []; annotations = [] };
  spec = claim.spec;
}

abbrev pub health_probe : String → Probe
health_probe path = record { path = path; port = "http"; scheme = ""; timeout_seconds = pos 10 }
