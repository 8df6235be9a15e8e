-- ===== src/Base/Order/Laws.antt =====
-- The order of strings is total, and sorting by such an order forgets the order of its input.
use Prim.Native.Nat.{ℕ, compare as compare_ℕ, Ordering}
use Prim.Native.Char.{code}
use Prim.Native.String.{String, [], ◌∷◌, then as lex, compare}
use Prim.Native.String.compare
use mathlib.Core.Path.{◌≡◌, refl}
use mathlib.Core.Bool.{true, false}
use native.Mathlib.Omega.{arith}
use text.Mathlib.Text.{is_le}
use text.Mathlib.TextEquality.{Char-path}
use telemetry_operator.Base.Order.{str_le}

-- Heads and tails of two texts that are compared.
lex_trans :
    (a b c : ℕ) (o p q : Ordering)
    → (is_le o ≡ true → is_le p ≡ true → is_le q ≡ true)
    → is_le (lex (compare_ℕ a b) o) ≡ true
    → is_le (lex (compare_ℕ b c) p) ≡ true
    → is_le (lex (compare_ℕ a c) q) ≡ true
lex_trans a b c o p q ih h k = ground arith

compare_trans :
    (s t u : String)
    → is_le (compare s t) ≡ true
    → is_le (compare t u) ≡ true
    → is_le (compare s u) ≡ true
compare_trans [] t [] h k = refl
compare_trans [] t (e ∷ u) h k = rw compare.nil-cons
compare_trans (c ∷ s) [] u h k = cc (rw compare.cons-nil at h)
compare_trans (c ∷ s) (d ∷ t) [] h k = cc (rw compare.cons-nil at k)
compare_trans (c ∷ s) (d ∷ t) (e ∷ u) h k = rw compare.cons-cons (
    lex_trans (code c) (code d) (code e) (compare s t) (compare t u) (compare s u)
      (compare_trans s t u) (rw compare.cons-cons at h) (rw compare.cons-cons at k))

lex_total :
    (a b : ℕ) (o p : Ordering)
    → (is_le o ≡ false → is_le p ≡ true)
    → is_le (lex (compare_ℕ a b) o) ≡ false
    → is_le (lex (compare_ℕ b a) p) ≡ true
lex_total a b o p ih h = ground arith

compare_total : (s t : String) → is_le (compare s t) ≡ false → is_le (compare t s) ≡ true
compare_total [] [] h = refl
compare_total [] (d ∷ t) h = cc (rw compare.nil-cons at h)
compare_total (c ∷ s) [] h = rw compare.nil-cons
compare_total (c ∷ s) (d ∷ t) h = rw compare.cons-cons (
    lex_total (code c) (code d) (compare s t) (compare t s) (compare_total s t)
      (rw compare.cons-cons at h))

lex_antisym :
    (a b : ℕ) (o p : Ordering)
    → is_le (lex (compare_ℕ a b) o) ≡ true
    → is_le (lex (compare_ℕ b a) p) ≡ true
    → (a ≡ b) × (is_le o ≡ true) × (is_le p ≡ true)
lex_antisym a b o p h k = ground arith

compare_antisym : (s t : String) → is_le (compare s t) ≡ true → is_le (compare t s) ≡ true → s ≡ t
compare_antisym [] [] h k = refl
compare_antisym [] (d ∷ t) h k = cc (rw compare.cons-nil at k)
compare_antisym (c ∷ s) [] h k = cc (rw compare.cons-nil at h)
compare_antisym (c ∷ s) (d ∷ t) h k =
    let (e, p, q) =
      lex_antisym (code c) (code d) (compare s t) (compare t s) (rw compare.cons-cons at h)
        (rw compare.cons-cons at k) in
    cc (Char-path c d e, compare_antisym s t p q)

pub str_le_trans : (s t u : String) → str_le s t ≡ true → str_le t u ≡ true → str_le s u ≡ true
unfolding str_le
str_le_trans = compare_trans

pub str_le_total : (s t : String) → str_le s t ≡ false → str_le t s ≡ true
unfolding str_le
str_le_total = compare_total

pub str_le_antisym : (s t : String) → str_le s t ≡ true → str_le t s ≡ true → s ≡ t
unfolding str_le
str_le_antisym = compare_antisym
