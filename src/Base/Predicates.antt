-- ===== src/Base/Predicates.antt =====
-- Predicates on options and lists by recursion, and what an emptiness test says.
use Prim.Native.String.{String}
use mathlib.Core.Path.{◌≡◌, refl, sym, subst}
use mathlib.Core.Logic.{◌≢◌, ◌⊎◌, inl, inr}
use mathlib.Core.Bool.{Bool, true, false, not, ◌&&◌, ◌||◌}
use mathlib.Core.Option.{Option, none, some}
use mathlib.Core.List.{List, [], ◌∷◌, ◌++◌, map, flat_map, Memᴰ}
use native.Mathlib.Omega.{arith}
use text.Mathlib.Text.{◌==◌}
use text.Mathlib.TextEquality.{eq_iff}
use telemetry_operator.Base.Tests.{if◌then◌else◌}

abbrev pub IfSome {ℓ κ} : {A : Type ℓ} → (A → Type κ) → Option A → Type κ
IfSome P none = Unit
IfSome P (some a) = P a

abbrev pub All {ℓ κ} : {A : Type ℓ} → (A → Type κ) → List A → Type κ
All P [] = Unit
All P (x ∷ xs) = P x × All P xs

-- There is a value, and it has the property.
abbrev pub Has : {A : Type 0} → (A → Type 0) → Option A → Type 0
Has P none = ⊥
Has P (some a) = P a

-- What follows from a test, as a choice.
pub unless {κ} : {P : Type κ} (b : Bool) → (b ≡ true → P) → (b ≡ false) ⊎ P
unless true h = inr (h refl)
unless false h = inl refl

pub IfSome-map {ℓ κ} :
    {A : Type ℓ} {P Q : A → Type κ} (o : Option A) → ((a : A) → P a → Q a) → IfSome P o → IfSome Q o
IfSome-map none f h = tt
IfSome-map (some a) f h = f a h

-- What is kept unless a test holds.
pub keep {ℓ κ} :
    {A : Type ℓ} (P : A → Type κ) (b : Bool) (a : A)
    → (b ≡ false → P a)
    → IfSome P (if b then none else some a)
keep P true a h = tt
keep P false a h = h refl

pub nonempty : (s : String) → (s == "") ≡ false → s ≢ ""
nonempty s h e = ground (arith, eq_iff s "")

pub all_nonempty :
    (s t u : String) → (s == "" || t == "" || u == "") ≡ false → (s ≢ "") × (t ≢ "") × (u ≢ "")
all_nonempty s t u h = (
  λ e. ground (arith, eq_iff s ""),
  λ e. ground (arith, eq_iff t ""),
  λ e. ground (arith, eq_iff u ""),
)

pub both_nonempty : (s t : String) → (s == "" || t == "") ≡ false → (s ≢ "") × (t ≢ "")
both_nonempty s t h = (λ e. ground (arith, eq_iff s ""), λ e. ground (arith, eq_iff t ""))

pub guarded : (b : Bool) (s : String) → (b && not (s == "")) ≡ true → s ≢ ""
guarded b s h e = ground (arith, eq_iff s "")

pub present : (s : String) → not (s == "") ≡ true → s ≢ ""
present s h e = ground (arith, eq_iff s "")

pub All-map {ℓ κ μ} :
    {A : Type ℓ} {B : Type κ} (P : B → Type μ) (f : A → B) (l : List A)
    → ((a : A) → P (f a))
    → All P (map f l)
All-map P f [] h = tt
All-map P f (a ∷ l) h = (h a, All-map P f l h)

pub All-append {ℓ κ} :
    {A : Type ℓ} (P : A → Type κ) (l m : List A) → All P l → All P m → All P (l ++ m)
All-append P [] m h k = k
All-append P (a ∷ l) m (h, hs) k = (h, All-append P l m hs k)

pub All-flat_map {ℓ κ μ} :
    {A : Type ℓ} {B : Type κ} (P : B → Type μ) (f : A → List B) (l : List A)
    → ((a : A) → All P (f a))
    → All P (flat_map f l)
unfolding flat_map
All-flat_map P f [] h = tt
All-flat_map P f (a ∷ l) h = All-append P (f a) (flat_map f l) (h a) (All-flat_map P f l h)

pub All-Memᴰ {ℓ κ} : {A : Type ℓ} (P : A → Type κ) (l : List A) (a : A) → All P l → Memᴰ a l → P a
All-Memᴰ P [] a h m = elim m [ ]
All-Memᴰ P (b ∷ l) a (h, hs) (Memᴰ.head e) = subst P (sym e) h
All-Memᴰ P (b ∷ l) a (h, hs) (Memᴰ.tail m) = All-Memᴰ P l a hs m
