-- ===== src/Builders/Ports.antt =====
-- The port behind a listen address: strconv.Atoi reads what fmt's %d writes.
use Prim.Native.Nat.{ℕ, zero, suc, ◌+◌, ◌-◌, ◌*◌, ◌/◌, ◌%◌, ◌^◌, ◌<◌, ◌≤◌}
use Prim.Native.Char.{code}
use Prim.Native.String as S
use Prim.Native.String.{◌++◌}
use mathlib.Core.List.{Memᴰ}
use text.Mathlib.TextLemmas.{nil-append, cons-append}
use telemetry_operator.Base.{
  ◌≡◌, refl, ap, ◌∙◌, pos, String, Bool, true, false, not, ◌&&◌, ◌||◌, Option, none, some, arith,
  leb, eqb, ltb, if_intro, Bool-cases, inl, inr, List, ◌∷◌,
}
use telemetry_operator.Base.Int.{is_zero_ℤ, int32, int32-pos}
use telemetry_operator.Base.Text.{digit, show_from, show}
use telemetry_operator.Builders.Pod.{
  or_text, after_colon, digits_value, overflows, atoi, container_port,
}
use telemetry_operator.Builders.Server.{port_where, container_ports}
use telemetry_operator.Objects.{ContainerPort}
use telemetry_operator.Kube.{Kube}
use telemetry_operator.Api.Telemetry.{TelemetrySpec}

abbrev then_digit : ℕ → Option ℕ → Option ℕ
then_digit d none = none
then_digit d (some n) = some (n * 10 + d)

digits_value-digit : (m d : ℕ) → d < 10 → digits_value m (digit d) ≡ some (m * 10 + d)
unfolding digits_value
digits_value-digit m zero h = refl
digits_value-digit m (suc zero) h = refl
digits_value-digit m (suc (suc zero)) h = refl
digits_value-digit m (suc (suc (suc zero))) h = refl
digits_value-digit m (suc (suc (suc (suc zero)))) h = refl
digits_value-digit m (suc (suc (suc (suc (suc zero))))) h = refl
digits_value-digit m (suc (suc (suc (suc (suc (suc zero)))))) h = refl
digits_value-digit m (suc (suc (suc (suc (suc (suc (suc zero))))))) h = refl
digits_value-digit m (suc (suc (suc (suc (suc (suc (suc (suc zero)))))))) h = refl
digits_value-digit m (suc (suc (suc (suc (suc (suc (suc (suc (suc zero))))))))) h = refl
digits_value-digit m (suc (suc (suc (suc (suc (suc (suc (suc (suc (suc k)))))))))) h =
    absurd (omega arith)

digits_value-append :
    (m d : ℕ) (s : String)
    → d < 10
    → digits_value m (s ++ digit d) ≡ then_digit d (digits_value m s)
unfolding digits_value
digits_value-append m d S.[] h = rw (nil-append (digit d)) (digits_value-digit m d h)
digits_value-append m d (S.◌∷◌ c s) h =
    let rest = digits_value-append (m * 10 + (code c - 48)) d s h in
    rw (cons-append c s (digit d), rest) (ground arith)

digits_value-show_from : (fuel n : ℕ) → n < fuel → digits_value 0 (show_from fuel n) ≡ some n
unfolding digits_value show_from
digits_value-show_from zero n h = absurd (omega arith)
digits_value-show_from (suc fuel) n h =
    if_intro {A = String} (λ t. digits_value 0 t ≡ some n) (ltb n 10) (digit n)
      (show_from fuel (n / 10) ++ digit (n % 10))
      (λ small. digits_value-digit 0 n (ground (arith, small)) ∙ ap some (omega arith))
      (λ large.
        let below : n / 10 < fuel = ground (arith, large, h) in
        let last : n % 10 < 10 = omega arith in
        let whole : n / 10 * 10 + n % 10 ≡ n = omega arith in
        digits_value-append 0 (n % 10) (show_from fuel (n / 10)) last
        ∙ rw (digits_value-show_from fuel (n / 10) below) (ap some whole))

digits_value-grows : (m n : ℕ) (s : String) → digits_value m s ≡ some n → m ≤ n
unfolding digits_value
digits_value-grows m n S.[] e = ground (arith, e)
digits_value-grows m n (S.◌∷◌ c s) e =
    ground (arith, e, digits_value-grows (m * 10 + (code c - 48)) n s)

overflows-digits :
    (m n : ℕ) (s : String) → digits_value m s ≡ some n → n < 2 ^ 64 → overflows m s ≡ false
unfolding digits_value overflows
overflows-digits m n S.[] e h = refl
overflows-digits m n (S.◌∷◌ c s) e h =
    let value = m * 10 + (code c - 48) in
    ground (arith, e, h, overflows-digits value n s, digits_value-grows value n s)

-- strconv.Atoi of a text of digits.
atoi-digits : (s : String) (n : ℕ) → digits_value 0 s ≡ some n → n < 2 ^ 63 → atoi s ≡ pos n
unfolding atoi digits_value overflows
atoi-digits S.[] n e h = cc
atoi-digits (S.◌∷◌ c s) n e h = elim (Bool-cases (leb 48 (code c) && leb (code c) 57)) [
  | inl d ↦
      let minus : eqb (code c) b'-' ≡ false = ground (arith, d) in
      let plus : eqb (code c) b'+' ≡ false = ground (arith, d) in
      let small : leb n (2 ^ 63 - 1) ≡ true = ground (arith, h) in
      let whole = overflows-digits 0 n (S.◌∷◌ c s) e (omega arith) in
      rw (minus, plus, whole, e, small) refl
  | inr d ↦ absurd (ground (arith, d, e))
]

pub atoi-show : (n : ℕ) → n < 2 ^ 63 → atoi (show n) ≡ pos n
unfolding show
atoi-show n h = atoi-digits (show n) n (digits_value-show_from (suc n) n (omega arith)) h

-- Whether a colon occurs in a text.
unfoldable pub has_colon : String → Bool
has_colon S.[] = false
has_colon (S.◌∷◌ c s) = eqb (code c) b':' || has_colon s

colon-append : (t : String) → ":" ++ t ≡ S.◌∷◌ ":" t
colon-append t = cons-append ":" S.[] t ∙ ap (S.◌∷◌ ":") (nil-append t)

after_colon-append : (host t : String) → has_colon host ≡ false → after_colon (host ++ ":" ++ t) ≡ t
unfolding after_colon has_colon
after_colon-append S.[] t h = rw (nil-append (":" ++ t), colon-append t) refl
after_colon-append (S.◌∷◌ c s) t h =
    let here : eqb (code c) b':' ≡ false = ground (arith, h) in
    rw (cons-append c s (":" ++ t), here) (after_colon-append s t (ground (arith, h)))

or_text-append : (host t default : String) → or_text (host ++ ":" ++ t) default ≡ host ++ ":" ++ t
or_text-append S.[] t default = rw (nil-append (":" ++ t), colon-append t) refl
or_text-append (S.◌∷◌ c s) t default = rw (cons-append c s (":" ++ t)) refl

second-Memᴰ :
    (b : Bool) (p q : ContainerPort) (rest : List ContainerPort)
    → Memᴰ q (port_where b p (q ∷ rest))
second-Memᴰ true p q rest = Memᴰ.tail (Memᴰ.head refl)
second-Memᴰ false p q rest = Memᴰ.head refl

-- The number of the pod's port "https" is the one that the listen address names: if the address is a
-- host without a colon, a colon and the decimal digits of n, with n below 2^31, and the service has
-- an HTTPS port, then the container has the port n under that name.
pub container_ports-listen :
    (K : Kube) (spec : TelemetrySpec K) (host : String) (n : ℕ)
    → spec.https_listen ≡ host ++ ":" ++ show n
    → has_colon host ≡ false
    → n < 2 ^ 31
    → is_zero_ℤ spec.service.https_port ≡ false
    → Memᴰ (container_port "https" (pos n)) (container_ports K spec)
unfolding container_ports
container_ports-listen K spec host n e colon small given =
    let port : int32 (atoi (after_colon (or_text spec.https_listen ":8443"))) ≡ pos n =
      rw
        (
          e,
          or_text-append host (show n) ":8443",
          after_colon-append host (show n) colon,
          atoi-show n (ground (arith, small)),
        )
        (int32-pos n small) in
    rw (port, given) (second-Memᴰ (not spec.http_disabled) _ _ _)
