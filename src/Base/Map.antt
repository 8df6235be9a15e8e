-- ===== src/Base/Map.antt =====
-- Go's maps with string keys, as association lists without repeated keys. The order of the entries
-- stands for the order in which a loop ranges over the map.
use Prim.Native.String.{String}
use mathlib.Core.Path.{◌≡◌, ap, ◌∙◌}
use mathlib.Core.Option.{Option, none, some}
use mathlib.Core.List.{List, [], ◌∷◌, Mem, Mem-prop, mem-cons, not-mem-nil, mem_of_ne_of_mem}
use mathlib.Core.Logic.Or
use mathlib.Core.Logic.{inl, inr, ◌≢◌}
use mathlib.Core.HLevel.{hedberg}
use native.Mathlib.Omega.{arith}
use text.Mathlib.Text.{◌==◌}
use text.Mathlib.TextEquality.{eq_iff}
use text.Mathlib.TextPositions.{eq_refl}
use telemetry_operator.Base.Tests.{if◌then◌else◌, Bool-cases, if_intro}

module _ {ℓ} {V : Type ℓ} where
  -- m[k]
  unfoldable pub lookup : String → List (String × V) → Option V
  lookup key [] = none
  lookup key ((name, value) ∷ entries) = if name == key then some value else lookup key entries

  -- delete(m, k)
  unfoldable pub delete : String → List (String × V) → List (String × V)
  delete key [] = []
  delete key ((name, value) ∷ entries) =
      let others = delete key entries in if name == key then others else (name, value) ∷ others

  -- m[k] = v: what the map had for the key is gone.
  unfoldable pub insert : String → V → List (String × V) → List (String × V)
  unfolding delete
  insert key value entries = (key, value) ∷ delete key entries

  pub lookup-delete :
      (removed key : String) (entries : List (String × V))
      → lookup key (delete removed entries) ≡ (if removed == key then none else lookup key entries)
  unfolding lookup delete
  lookup-delete removed key [] = ground arith
  lookup-delete removed key ((name, value) ∷ entries) = ground (
    arith,
    lookup-delete removed key entries,
    eq_iff removed key,
    eq_iff name removed,
    eq_iff name key,
  )

  pub lookup-insert :
      (added key : String) (value : V) (entries : List (String × V))
      → lookup key (insert added value entries)
        ≡ (if added == key then some value else lookup key entries)
  unfolding lookup insert
  lookup-insert added key value entries = ground (arith, lookup-delete added key entries)

  -- No key stands twice.
  abbrev pub Distinct : List (String × V) → Type ℓ
  Distinct [] = Unit
  Distinct ((k, v) ∷ m) = (lookup k m ≡ none) × Distinct m

  delete-Distinct :
      (key : String) (entries : List (String × V))
      → Distinct entries
      → Distinct (delete key entries)
  unfolding delete
  delete-Distinct key [] h = tt
  delete-Distinct key ((name, value) ∷ entries) (fresh, h) =
      if_intro Distinct (name == key) (delete key entries) ((name, value) ∷ delete key entries)
        (λ _. delete-Distinct key entries h)
        (λ _.
          (ground (arith, fresh, lookup-delete key name entries), delete-Distinct key entries h))

  pub insert-Distinct :
      (key : String) (value : V) (entries : List (String × V))
      → Distinct entries
      → Distinct (insert key value entries)
  unfolding insert
  insert-Distinct key value entries h =
      (ground (arith, lookup-delete key key entries, eq_refl key), delete-Distinct key entries h)

  -- The value of an entry is what a lookup of its key returns.
  pub lookup_of_Mem :
      (set : IsSet V) (k : String) (v : V) (m : List (String × V))
      → Distinct m
      → Mem (k, v) m
      → lookup k m ≡ some v
  unfolding lookup
  lookup_of_Mem set k v [] d h = absurd (not-mem-nil h)
  lookup_of_Mem set k v ((j, w) ∷ m) (fresh, d) h =
      Or.elim (hlevel set) (mem-cons.0 h)
        (λ e.
          let same_key : k ≡ j = ap (λ p. p.0) e in
          let same_value : v ≡ w = ap (λ p. p.1) e in ground (arith, eq_iff j k))
        (λ t. ground (arith, eq_iff j k, lookup_of_Mem set k v m d t))

-- An entry stays when another key is deleted.
pub delete-Mem {ℓ} :
    {V : Type ℓ} (removed k : String) (v : V) (m : List (String × V))
    → Mem (k, v) m
    → k ≢ removed
    → Mem (k, v) (delete removed m)
unfolding delete
delete-Mem removed k v [] h other = h
delete-Mem removed k v ((j, w) ∷ m) h other =
    let kept = delete-Mem removed k v m in
    if_intro (Mem (k, v)) (j == removed) (delete removed m) ((j, w) ∷ delete removed m)
      (λ e.
        let differs : (k, v) ≢ (j, w) = λ p. other (ap (λ x. x.0) p ∙ (eq_iff j removed).0 e) in
        kept (mem_of_ne_of_mem differs h) other)
      (λ _.
        Or.elim Mem-prop (mem-cons.0 h) (λ e. mem-cons.1 (Or.inl e))
          (λ t. mem-cons.1 (Or.inr (kept t other))))

String-discrete : Discrete String
String-discrete s t = elim (Bool-cases (s == t)) [
  | inl same ↦ yes ((eq_iff s t).0 same)
  | inr other ↦ no (λ e. ground (arith, eq_iff s t))
]

pub String-set : IsSet String
String-set = hedberg String-discrete
