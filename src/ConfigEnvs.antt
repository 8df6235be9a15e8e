-- ===== src/ConfigEnvs.antt =====
-- controller/utils.go: ConfigEnvs, the environment variables through which the server reads the
-- secrets that its configuration refers to. Their names hold a CRC-32 (hash/crc32, IEEE), which is
-- modelled bit by bit.
pub mod Laws
use Prim.Native.Nat.{bit_xor}
use Prim.Native.Char.{code}
use Prim.Native.String
use mathlib.Core.Bool.{Bool}
use telemetry_operator.Base.{
  ◌≡◌, refl, ℕ, zero, suc, ◌+◌, ◌-◌, ◌*◌, ◌/◌, ◌%◌, ◌^◌, String, Option, none, some, List, [], ◌∷◌,
  ◌++◌, ltb, eqb, if◌then◌else◌, ◌==◌, map,
}
use telemetry_operator.Base.Map.{insert}
use telemetry_operator.Base.Sha256.{bytes}
use telemetry_operator.Base.Order.{str_le, sort}
use telemetry_operator.Kube.{Kube, SecretKeySelector, EnvVar, secret_key_ref}

-- map[string]*corev1.SecretKeySelector
abbrev pub ConfigEnvs : Type 0
ConfigEnvs = List (String × SecretKeySelector)

-- One bit of the reflected polynomial 0xEDB88320, `n` times.
crc_bits : ℕ → ℕ → ℕ
crc_bits zero r = r
crc_bits (suc n) r = crc_bits n (if eqb (r % 2) 1 then bit_xor (r / 2) 0xEDB88320 else r / 2)

crc_bytes : ℕ → List ℕ → ℕ
crc_bytes r [] = r
crc_bytes r (b ∷ bs) = crc_bytes (crc_bits 8 (bit_xor r b)) bs

-- crc32.ChecksumIEEE
pub checksum_ieee : String → ℕ
unfolding bytes crc_bits crc_bytes
checksum_ieee s = bit_xor (crc_bytes 0xFFFFFFFF (bytes s)) 0xFFFFFFFF

checksum_ieee_example : checksum_ieee "123456789" ≡ 0xCBF43926
unfolding checksum_ieee
checksum_ieee_example = refl

abbrev hex_digit : ℕ → String
hex_digit n = String.slice "0123456789ABCDEF" n (n + 1)

-- fmt's %X; eight digits are enough below 2^32.
hex_from : ℕ → ℕ → String
hex_from zero n = ""
hex_from (suc fuel) n =
    let more = hex_from fuel (n / 16) in
    if ltb n 16 then hex_digit n else String.◌++◌ more (hex_digit (n % 16))

-- The name that Add gives to a selector.
unfoldable pub env_name : SecretKeySelector → String
unfolding checksum_ieee hex_from
env_name selector =
    let hash = checksum_ieee (String.◌++◌ selector.name (String.◌++◌ "/" selector.key)) in
    String.◌++◌ "TELEMETRY_CONFIG_SECRET_" (hex_from 8 hash)

-- What stands in the configuration in the secret's place.
unfoldable pub reference : SecretKeySelector → String
reference selector = String.◌++◌ "${" (String.◌++◌ (env_name selector) "}")

-- ConfigEnvs.Add: the changed map, and the reference.
unfoldable pub add : SecretKeySelector → ConfigEnvs → String × ConfigEnvs
add selector ce = (reference selector, insert (env_name selector) selector ce)

-- envs[i].Name < envs[j].Name, or they are equal
abbrev by_name : String × SecretKeySelector → String × SecretKeySelector → Bool
by_name (n, _) (m, _) = str_le n m

module _ (K : Kube) where
  abbrev pub env_var : String × SecretKeySelector → EnvVar K
  env_var (name, selector) = record {
    name = name;
    value = "";
    value_from = some (secret_key_ref selector);
  }

  -- ConfigEnvs.List: the variables sorted by name. `ce` lists the map in the order in which the
  -- loop ranges over it.
  unfoldable pub list : ConfigEnvs → List (EnvVar K)
  list ce = map env_var (sort by_name ce)
