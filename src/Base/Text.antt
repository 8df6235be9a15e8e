-- ===== src/Base/Text.antt =====
-- Functions of the packages strings and fmt on texts.
use Prim.Native.Nat.{ℕ, zero, suc, ◌/◌, ◌%◌, ◌<◌}
use Prim.Native.Char.{code}
use Prim.Native.String.{String, [], ◌∷◌, ◌++◌}
use mathlib.Core.Path.{◌≡◌, refl, ap}
use mathlib.Core.Bool.{Bool, true, false}
use mathlib.Core.List.{List}
use text.Mathlib.TextLemmas.{cons-append}
use native.Mathlib.Omega.{arith}
use telemetry_operator.Base.Tests.{eqb, ltb, if◌then◌else◌, if_intro}
use telemetry_operator.Base.Int.{ℤ, pos, negsuc}

-- strings.HasSuffix(s, "/")
pub ends_with_slash : String → Bool
ends_with_slash [] = false
ends_with_slash (c ∷ []) = eqb (code c) b'/'
ends_with_slash (c ∷ d ∷ s) = ends_with_slash (d ∷ s)

-- strings.HasPrefix(s, "/")
abbrev pub starts_with_slash : String → Bool
starts_with_slash [] = false
starts_with_slash (c ∷ s) = eqb (code c) b'/'

-- The decimal digit of a number below ten.
abbrev pub digit : ℕ → String
digit zero = "0"
digit (suc zero) = "1"
digit (suc (suc zero)) = "2"
digit (suc (suc (suc zero))) = "3"
digit (suc (suc (suc (suc zero)))) = "4"
digit (suc (suc (suc (suc (suc zero))))) = "5"
digit (suc (suc (suc (suc (suc (suc zero)))))) = "6"
digit (suc (suc (suc (suc (suc (suc (suc zero))))))) = "7"
digit (suc (suc (suc (suc (suc (suc (suc (suc zero)))))))) = "8"
digit n = "9"

-- Fuel n + 1 is enough for n, which has at most n + 1 digits.
unfoldable pub show_from : ℕ → ℕ → String
show_from zero n = ""
show_from (suc fuel) n =
    let more = show_from fuel (n / 10) in if ltb n 10 then digit n else more ++ digit (n % 10)

-- All fuel above the number gives the same text, so that n + 1 is enough for n.
show_from_enough : (f g n : ℕ) → n < f → n < g → show_from f n ≡ show_from g n
unfolding show_from
show_from_enough zero g n h k = absurd (omega arith)
show_from_enough (suc f) zero n h k = absurd (omega arith)
show_from_enough (suc f) (suc g) n h k =
    if_intro {A = String} (λ t. t ≡ show_from (suc g) n) (ltb n 10) (digit n)
      (show_from f (n / 10) ++ digit (n % 10)) (λ small. rw small refl)
      (λ large.
        let below : n / 10 < n = ground (arith, large) in
        rw large (
          ap (λ t. t ++ digit (n % 10))
            (show_from_enough f g (n / 10) (omega arith) (omega arith))))

-- fmt's %d of a number that is not negative
unfoldable pub show : ℕ → String
unfolding show_from
show n = show_from (suc n) n

-- fmt's %d
unfoldable pub show_ℤ : ℤ → String
unfolding show
show_ℤ (pos n) = show n
show_ℤ (negsuc n) = "-" ++ show (suc n)

-- The text of a number is that of its tenth, and its last digit behind it.
show_lem : (n : ℕ) → show n ≡ (if ltb n 10 then digit n else show (n / 10) ++ digit (n % 10))
unfolding show show_from
show_lem n =
    if_intro {A = String} (λ t. t ≡ (if ltb n 10 then digit n else show (n / 10) ++ digit (n % 10)))
      (ltb n 10) (digit n) (show_from n (n / 10) ++ digit (n % 10)) (λ small. rw small refl)
      (λ large.
        let below : n / 10 < n = ground (arith, large) in
        rw large (
          ap (λ t. t ++ digit (n % 10))
            (show_from_enough n (suc (n / 10)) (n / 10) below (omega arith))))

-- strings.Join(parts, sep)
pub join : String → List String → String
join sep List.[] = ""
join sep (List.◌∷◌ s List.[]) = s
join sep (List.◌∷◌ s (List.◌∷◌ t rest)) = s ++ sep ++ join sep (List.◌∷◌ t rest)

pub ends_with_slash-append : (s : String) → ends_with_slash (s ++ "/") ≡ true
unfolding ends_with_slash
ends_with_slash-append [] = refl
ends_with_slash-append (c ∷ []) = rw cons-append
ends_with_slash-append (c ∷ d ∷ s) =
    rw (cons-append c (d ∷ s) "/", cons-append d s "/")
      (rw cons-append at (ends_with_slash-append (d ∷ s)))

show_examples : show 1204 ≡ "1204"
unfolding show
show_examples = refl
