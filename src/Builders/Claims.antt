-- ===== src/Builders/Claims.antt =====
-- The volume claims that the operator makes: how many there are and what they are called.
use Prim.Native.String.{◌++◌}
use mathlib.Core.List.{flat_map, map, ◌++◌ as append}
use mathlib.Core.Option
use telemetry_operator.Base.{
  ◌≡◌, refl, sym, ap, ◌∙◌, ℕ, zero, suc, ◌+◌, ◌*◌, ◌<◌, String, Option, none, some, List, [], ◌∷◌,
  rounds, arith, if◌then◌else◌, ltb,
}
use telemetry_operator.Base.Text.{show}
use telemetry_operator.Kube.{Kube}
use telemetry_operator.Api.Telemetry.{Telemetry}
use telemetry_operator.Objects.{PersistentVolumeClaim}
use telemetry_operator.Builders.Labels.{count_up, one_if_zero}
use telemetry_operator.Builders.Front.{telemetry_pvcs}
use telemetry_operator.Builders.Stores.{
  clickhouse_pvcs, clickhouse_keeper_pvcs, clickhouse_keeper_replicas,
}

-- l[i], if there is one
unfoldable pub get_elem? {ℓ} : {A : Type ℓ} → List A → ℕ → Option A
get_elem? [] i = none
get_elem? (x ∷ l) zero = some x
get_elem? (x ∷ l) (suc i) = get_elem? l i

abbrev pub claim_name : (K : Kube) → PersistentVolumeClaim K → String
claim_name K c = c.meta.name

get_elem?-count_up {ℓ} :
    {A : Type ℓ} (f : ℕ → A) (start n i : ℕ)
    → get_elem? (map f (count_up start n)) i ≡ (if ltb i n then some (f (start + i)) else none)
unfolding get_elem? count_up
get_elem?-count_up f start zero i = ground arith
get_elem?-count_up f start (suc n) zero =
    let here : start + 0 ≡ start = omega arith in ground (arith, here)
get_elem?-count_up f start (suc n) (suc i) =
    let moved : suc start + i ≡ start + suc i = omega arith in
    ground (arith, get_elem?-count_up f (suc start) n i, moved)

-- Behind n elements the others follow.
get_elem?-append {ℓ} :
    {A : Type ℓ} (f : ℕ → A) (start n : ℕ) (m : List A) (i : ℕ)
    → get_elem? (append (map f (count_up start n)) m) (n + i) ≡ get_elem? m i
unfolding get_elem? count_up
get_elem?-append f start zero m i = let same : 0 + i ≡ i = omega arith in rw same refl
get_elem?-append f start (suc n) m i =
    let behind : suc n + i ≡ suc (n + i) = omega arith in
    rw behind (get_elem?-append f (suc start) n m i)

get_elem?-append_lt {ℓ} :
    {A : Type ℓ} (f : ℕ → A) (start n : ℕ) (m : List A) (i : ℕ)
    → i < n
    → get_elem? (append (map f (count_up start n)) m) i ≡ some (f (start + i))
unfolding get_elem? count_up
get_elem?-append_lt f start zero m i h = absurd (omega arith)
get_elem?-append_lt f start (suc n) m zero h =
    let here : start + 0 ≡ start = omega arith in rw here refl
get_elem?-append_lt f start (suc n) m (suc i) h =
    let moved : suc start + i ≡ start + suc i = omega arith in
    rw (sym moved) (get_elem?-append_lt f (suc start) n m i (omega arith))

-- Rows of r elements one after the other.
get_elem?-rows {ℓ} :
    {A : Type ℓ} (f : ℕ → ℕ → A) (start s r j i : ℕ)
    → j < s
    → i < r
    → get_elem? (flat_map (λ a. map (f a) (count_up 0 r)) (count_up start s)) (j * r + i)
      ≡ some (f (start + j) i)
unfolding flat_map count_up
get_elem?-rows f start zero r j i h k = absurd (omega arith)
get_elem?-rows f start (suc s) r zero i h k =
    let none_before : start + 0 ≡ start = omega arith in
    let place : 0 * r + i ≡ i = omega arith in
    let same : 0 + i ≡ i = omega arith in
    rw (none_before, place)
      (get_elem?-append_lt (f start) 0 r _ i k ∙ ap (λ a. some (f start a)) same)
get_elem?-rows f start (suc s) r (suc j) i h k =
    let moved : suc start + j ≡ start + suc j = omega arith in
    let place : suc j * r + i ≡ r + (j * r + i) = omega arith in
    rw (place, sym moved)
      (get_elem?-append (f start) 0 r _ (j * r + i)
        ∙ get_elem?-rows f (suc start) s r j i (omega arith) k)

-- The i-th claim of the telemetry server, for as many i as there are replicas (one, if the number is
-- zero; none, if it is negative), and there is no further claim.
pub telemetry_pvcs-name :
    (K : Kube) (cr : Telemetry K) (i : ℕ)
    → Option.map (claim_name K) (get_elem? (telemetry_pvcs K cr) i) ≡ (
        if ltb i (rounds (one_if_zero cr.spec.replicas))
        then some ("data-" ++ cr.name ++ "-telemetry-" ++ show i)
        else none)
unfolding telemetry_pvcs
telemetry_pvcs-name K cr i = rw get_elem?-count_up (ground arith)

-- The i-th claim of the keeper, of which there are as many as the keeper has replicas.
pub clickhouse_keeper_pvcs-name :
    (K : Kube) (cr : Telemetry K) (i : ℕ)
    → Option.map (claim_name K) (get_elem? (clickhouse_keeper_pvcs K cr) i) ≡ (
        if ltb i (rounds (clickhouse_keeper_replicas K cr))
        then some ("data-" ++ cr.name ++ "-clickhouse-keeper-" ++ show i)
        else none)
unfolding clickhouse_keeper_pvcs
clickhouse_keeper_pvcs-name K cr i = rw get_elem?-count_up (ground arith)

-- The claims of Clickhouse come shard by shard: for each shard below their number and each replica
-- below theirs, the claim at shard * replicas + replica has the name of that shard and replica.
pub clickhouse_pvcs-name :
    (K : Kube) (cr : Telemetry K) (shard replica : ℕ)
    → shard < rounds (one_if_zero cr.spec.clickhouse.shards)
    → replica < rounds (one_if_zero cr.spec.clickhouse.replicas)
    → Option.map (claim_name K) (
        get_elem?
          (clickhouse_pvcs K cr)
          (shard * rounds (one_if_zero cr.spec.clickhouse.replicas) + replica))
      ≡ some ("data-" ++ cr.name ++ "-clickhouse-shard-" ++ show shard ++ "-" ++ show replica)
unfolding clickhouse_pvcs
clickhouse_pvcs-name K cr shard replica h k =
    let here : 0 + shard ≡ shard = omega arith in
    ap (Option.map (claim_name K)) (get_elem?-rows _ 0 _ _ shard replica h k)
    ∙ ap (λ a. some ("data-" ++ cr.name ++ "-clickhouse-shard-" ++ show a ++ "-" ++ show replica))
        here
