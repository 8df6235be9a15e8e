-- ===== src/Builders/Counting.antt =====
-- Membership in the lists that loops over a number of rounds build, and the number of rounds after a
-- conversion to int32.
use mathlib.Core.Path.{subst}
use mathlib.Core.List.Memᴰ
use mathlib.Core.List.{Memᴰ, flat_map, map}
use telemetry_operator.Base.{
  ◌≡◌, ap, ℤ, pos, negsuc, ℕ, zero, suc, ◌+◌, ◌<◌, ◌≤◌, List, [], ◌∷◌, arith, is_positive, rounds,
  if◌then◌else◌, false,
}
use telemetry_operator.Base.Int.{int32}
use telemetry_operator.Validate.Frame.{is_negative}
use telemetry_operator.Builders.Labels.{count_up, one_if_zero}

count_up-Memᴰ {ℓ} :
    {A : Type ℓ} (f : ℕ → A) (start n i : ℕ)
    → i < n
    → Memᴰ (f (start + i)) (map f (count_up start n))
unfolding count_up
count_up-Memᴰ f start zero i h = absurd (omega arith)
count_up-Memᴰ f start (suc n) zero h =
    let here : start + 0 ≡ start = omega arith in Memᴰ.head (ap f here)
count_up-Memᴰ f start (suc n) (suc i) h =
    let moved : start + suc i ≡ suc start + i = omega arith in
    Memᴰ.tail (Memᴰ.cast (ap f moved) (count_up-Memᴰ f (suc start) n i (omega arith)))

pub row-Memᴰ {ℓ} : {A : Type ℓ} (f : ℕ → A) (n i : ℕ) → i < n → Memᴰ (f i) (map f (count_up 0 n))
row-Memᴰ f n i h =
    let same : i ≡ 0 + i = omega arith in Memᴰ.cast (ap f same) (count_up-Memᴰ f 0 n i h)

pub rows-Memᴰ {ℓ} :
    {A : Type ℓ} (f : ℕ → ℕ → A) (r start s j i : ℕ)
    → j < s
    → i < r
    → Memᴰ (f (start + j) i) (flat_map (λ a. map (f a) (count_up 0 r)) (count_up start s))
unfolding count_up flat_map
rows-Memᴰ f r start zero j i h k = absurd (omega arith)
rows-Memᴰ f r start (suc s) zero i h k =
    let here : start + 0 ≡ start = omega arith in
    Memᴰ.cast (ap (λ a. f a i) here) (Memᴰ.append_left _ (row-Memᴰ (f start) r i k))
rows-Memᴰ f r start (suc s) (suc j) i h k =
    let moved : start + suc j ≡ suc start + j = omega arith in
    Memᴰ.cast (ap (λ a. f a i) moved) (
      Memᴰ.append_right (map (f start) (count_up 0 r))
        (rows-Memᴰ f r (suc start) s j i (omega arith) k))

pub count_up-Memᴰ_inv {ℓ} :
    {A : Type ℓ} (f : ℕ → A) (start n : ℕ) (a : A)
    → Memᴰ a (map f (count_up start n))
    → (k : ℕ) × (k < start + n) × (a ≡ f k)
unfolding count_up
count_up-Memᴰ_inv f start zero a m = elim m [ ]
count_up-Memᴰ_inv f start (suc n) a (Memᴰ.head e) = (start, omega arith, e)
count_up-Memᴰ_inv f start (suc n) a (Memᴰ.tail m) =
    let (k, less, e) = count_up-Memᴰ_inv f (suc start) n a m in (k, omega arith, e)

listed : (start n i : ℕ) → i < n → Memᴰ (start + i) (count_up start n)
unfolding count_up
listed start zero i h = absurd (omega arith)
listed start (suc n) zero h = let here : start + 0 ≡ start = omega arith in Memᴰ.head here
listed start (suc n) (suc i) h =
    let moved : start + suc i ≡ suc start + i = omega arith in
    Memᴰ.tail (Memᴰ.cast moved (listed (suc start) n i (omega arith)))

pub listed_0 : (n i : ℕ) → i < n → Memᴰ i (count_up 0 n)
listed_0 n i h = let same : i ≡ 0 + i = omega arith in Memᴰ.cast same (listed 0 n i h)

pub flat_map-Memᴰ :
    {A B : Type 0} (f : A → List B) (l : List A) (a : A) (b : B)
    → Memᴰ a l
    → Memᴰ b (f a)
    → Memᴰ b (flat_map f l)
unfolding flat_map
flat_map-Memᴰ f [] a b m n = elim m [ ]
flat_map-Memᴰ f (x ∷ l) a b (Memᴰ.head e) n =
    Memᴰ.append_left (flat_map f l) (subst (λ y. Memᴰ b (f y)) e n)
flat_map-Memᴰ f (x ∷ l) a b (Memᴰ.tail m) n = Memᴰ.append_right (f x) (flat_map-Memᴰ f l a b m n)

-- The conversion of a number that is not negative does not make it larger.
rounds-int32 : (n : ℕ) → rounds (int32 (pos n)) ≤ n
unfolding int32
rounds-int32 n = ground arith

at_least_one :
    (k : ℤ) (m : ℕ) → rounds k ≤ m → 1 ≤ m → rounds (if is_positive k then k else pos 1) ≤ m
at_least_one (pos zero) m h l = l
at_least_one (pos (suc k)) m h l = h
at_least_one (negsuc k) m h l = l

pub rounds_le :
    (z : ℤ)
    → is_negative z ≡ false
    → rounds (if is_positive (int32 z) then int32 z else pos 1) ≤ rounds (one_if_zero z)
rounds_le (pos zero) h =
    let small = rounds-int32 0 in at_least_one (int32 (pos 0)) 1 (omega arith) (omega arith)
rounds_le (pos (suc n)) h =
    at_least_one (int32 (pos (suc n))) (suc n) (rounds-int32 (suc n)) (omega arith)
rounds_le (negsuc n) h = cc

-- The same of the keeper's number of replicas, which is positive.
pub rounds-int32_keeper :
    (z : ℤ)
    → rounds (int32 (if is_positive z then z else pos 3))
      ≤ rounds (if is_positive z then z else pos 3)
rounds-int32_keeper (pos zero) = rounds-int32 3
rounds-int32_keeper (pos (suc n)) = rounds-int32 (suc n)
rounds-int32_keeper (negsuc n) = rounds-int32 3
