-- ===== src/Base/Order/Sorting.antt =====
-- Sorting keeps the elements, puts them in order, and forgets the order of its input where no two
-- elements tie.
use mathlib.Core.Path.{◌≡◌, refl, ap, ◌∙◌}
use mathlib.Core.Bool.{Bool, true, false}
use mathlib.Core.List.{List, [], ◌∷◌, Permᴰ, Mem, mem-cons}
use mathlib.Core.Logic.Or
use mathlib.Core.List.Permᴰ
use native.Mathlib.Omega.{arith}
use telemetry_operator.Base.Tests.{if◌then◌else◌}
use telemetry_operator.Base.Order.{sorted_insert, sort}

module _ {ℓ} {A : Type ℓ} (le : A → A → Bool) where
  sorted_insert-perm : (x : A) (l : List A) → Permᴰ (sorted_insert le x l) (x ∷ l)
  unfolding sorted_insert
  sorted_insert-perm x [] = Permᴰ.refl (x ∷ [])
  sorted_insert-perm x (y ∷ l) =
      elim (le x y)
        as (λ b. Permᴰ (if b then x ∷ y ∷ l else y ∷ sorted_insert le x l) (x ∷ y ∷ l)) [
          | true ↦ Permᴰ.refl (x ∷ y ∷ l)
          | false ↦ Permᴰ.trans (Permᴰ.cons refl (sorted_insert-perm x l)) (Permᴰ.swap refl refl)
        ]

  pub sort-perm : (l : List A) → Permᴰ (sort le l) l
  unfolding sort
  sort-perm [] = Permᴰ.nil
  sort-perm (x ∷ l) = Permᴰ.trans (sorted_insert-perm x (sort le l)) (Permᴰ.cons refl (sort-perm l))

  -- Two elements that come neither before the other are one.
  abbrev pub TieFree : A → A → Type ℓ
  TieFree x y = le x y ≡ true → le y x ≡ true → x ≡ y

-- The order is a parameter of the section, with its laws.
module _ {ℓ} {A : Type ℓ} (le : A → A → Bool)
    (trans : (x y z : A) → le x y ≡ true → le y z ≡ true → le x z ≡ true)
    (total : (x y : A) → le x y ≡ false → le y x ≡ true) where
  sorted_insert_comm :
      (x y : A) (l : List A)
      → TieFree le x y
      → sorted_insert le x (sorted_insert le y l) ≡ sorted_insert le y (sorted_insert le x l)
  unfolding sorted_insert
  sorted_insert_comm x y [] tie = ground (arith, total x y, total y x)
  sorted_insert_comm x y (z ∷ l) tie = ground (
    arith,
    total x y,
    total y x,
    total x z,
    total y z,
    trans x y z,
    trans y x z,
    trans x z y,
    trans y z x,
    sorted_insert_comm x y l tie,
  )

  -- Two lists of the same elements, no two of which tie, are sorted to one list.
  pub sort-eq_of_perm :
      {l m : List A}
      → Permᴰ l m
      → ((x y : A) → Mem x l → Mem y l → TieFree le x y)
      → sort le l ≡ sort le m
  unfolding sort
  sort-eq_of_perm Permᴰ.nil h = refl
  sort-eq_of_perm (Permᴰ.cons {a} {l₁} {l₂} e p) h = rw e (
      ap (sorted_insert le _)
        (sort-eq_of_perm p (λ x y hx hy. h x y (mem-cons.1 (Or.inr hx)) (mem-cons.1 (Or.inr hy)))))
  sort-eq_of_perm (Permᴰ.swap {a} {b} {l} e f) h = cc (
      sorted_insert_comm a b (sort le l)
        (h a b (mem-cons.1 (Or.inl refl)) (mem-cons.1 (Or.inr (mem-cons.1 (Or.inl refl))))))
  sort-eq_of_perm (Permᴰ.trans p q) h =
      sort-eq_of_perm p h
      ∙ sort-eq_of_perm q
          (λ x y hx hy. h x y (Permᴰ.mem (Permᴰ.symm p) hx) (Permᴰ.mem (Permᴰ.symm p) hy))
