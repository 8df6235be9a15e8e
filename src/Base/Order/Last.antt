-- ===== src/Base/Order/Last.antt =====
-- The last element of a sorted list, which fetchAppVersion takes, is a greatest one.
use mathlib.Core.Path.{◌≡◌, subst}
use mathlib.Core.Bool.{Bool, true, false}
use mathlib.Core.Option.{Option, none, some}
use mathlib.Core.List.{List, [], ◌∷◌, Permᴰ}
use mathlib.Core.List.Permᴰ
use native.Mathlib.Omega.{arith}
use telemetry_operator.Base.Predicates.{All}
use telemetry_operator.Base.Tests.{if◌then◌else◌, if_intro}
use telemetry_operator.Base.Order.{sorted_insert, sort}
use telemetry_operator.Base.Order.Sorting.{sort-perm}

-- xs[len(xs)-1], if there is one
unfoldable pub last {ℓ} : {A : Type ℓ} → List A → Option A
last [] = none
last (x ∷ []) = some x
last (x ∷ y ∷ l) = last (y ∷ l)

pub All-perm {ℓ κ} : {A : Type ℓ} (P : A → Type κ) {l m : List A} → Permᴰ l m → All P l → All P m
All-perm P Permᴰ.nil h = h
All-perm P (Permᴰ.cons e p) (h, hs) = (subst P e h, All-perm P p hs)
All-perm P (Permᴰ.swap e f) (ha, (hb, hs)) = (subst P f hb, (subst P e ha, hs))
All-perm P (Permᴰ.trans p q) h = All-perm P q (All-perm P p h)

module _ {ℓ} {A : Type ℓ} (le : A → A → Bool) where
  abbrev pub IsSorted : List A → Type 0
  IsSorted [] = Unit
  IsSorted (x ∷ l) = All (λ y. le x y ≡ true) l × IsSorted l

  sorted_insert-All :
      (P : A → Type 0) (x : A) (l : List A) → P x → All P l → All P (sorted_insert le x l)
  unfolding sorted_insert
  sorted_insert-All P x [] h hs = (h, tt)
  sorted_insert-All P x (y ∷ l) h (hy, hs) =
      elim (le x y) as (λ b. All P (if b then x ∷ y ∷ l else y ∷ sorted_insert le x l)) [
        | true ↦ (h, (hy, hs))
        | false ↦ (hy, sorted_insert-All P x l h hs)
      ]

module _ {ℓ} {A : Type ℓ} (le : A → A → Bool)
    (trans : (x y z : A) → le x y ≡ true → le y z ≡ true → le x z ≡ true)
    (total : (x y : A) → le x y ≡ false → le y x ≡ true) where
  All-trans :
      (x y : A) (l : List A)
      → le x y ≡ true
      → All (λ z. le y z ≡ true) l
      → All (λ z. le x z ≡ true) l
  All-trans x y [] h hs = tt
  All-trans x y (z ∷ l) h (hz, hs) = (trans x y z h hz, All-trans x y l h hs)

  sorted_insert-IsSorted : (x : A) (l : List A) → IsSorted le l → IsSorted le (sorted_insert le x l)
  unfolding sorted_insert
  sorted_insert-IsSorted x [] h = (tt, tt)
  sorted_insert-IsSorted x (y ∷ l) (hy, hs) =
      if_intro (IsSorted le) (le x y) (x ∷ y ∷ l) (y ∷ sorted_insert le x l)
        (λ below. ((below, All-trans x y l below hy), (hy, hs)))
        (λ above. (
          sorted_insert-All le (λ z. le y z ≡ true) x l (total x y above) hy,
          sorted_insert-IsSorted x l hs,
        ))

  sort-IsSorted : (l : List A) → IsSorted le (sort le l)
  unfolding sort
  sort-IsSorted [] = tt
  sort-IsSorted (x ∷ l) = sorted_insert-IsSorted x (sort le l) (sort-IsSorted l)

  le_refl : (x : A) → le x x ≡ true
  le_refl x = ground (arith, total x x)

  last_of_IsSorted :
      (l : List A) (m : A) → IsSorted le l → last l ≡ some m → All (λ x. le x m ≡ true) l
  unfolding last
  last_of_IsSorted [] m h e = tt
  last_of_IsSorted (x ∷ []) m h e = ground (arith, le_refl x)
  last_of_IsSorted (x ∷ y ∷ l) m (hx, hs) e =
      let below = last_of_IsSorted (y ∷ l) m hs e in (trans x y m hx.0 below.0, below)

  -- Every element comes before the last of the sorted list, or ties with it.
  pub last-sort : (l : List A) (m : A) → last (sort le l) ≡ some m → All (λ x. le x m ≡ true) l
  last-sort l m e =
      All-perm (λ x. le x m ≡ true) (sort-perm le l)
        (last_of_IsSorted (sort le l) m (sort-IsSorted l) e)

last-All {ℓ κ} :
    {A : Type ℓ} (P : A → Type κ) (l : List A) (m : A) → last l ≡ some m → All P l → P m
unfolding last
last-All P [] m e h = cc
last-All P (x ∷ []) m e (h, _) = let same : x ≡ m = cc in subst P same h
last-All P (x ∷ y ∷ l) m e (_, h) = last-All P (y ∷ l) m e h

-- What holds of all elements holds of the last of the sorted list.
pub last-sort_All {ℓ κ} :
    {A : Type ℓ} (P : A → Type κ) (le : A → A → Bool) (l : List A) (m : A)
    → last (sort le l) ≡ some m
    → All P l
    → P m
last-sort_All P le l m e h = last-All P (sort le l) m e (All-perm P (Permᴰ.symm (sort-perm le l)) h)
