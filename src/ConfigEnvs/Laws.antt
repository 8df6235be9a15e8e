-- ===== src/ConfigEnvs/Laws.antt =====
-- Add and List together, and List on the orders of a map.
use Prim.Native.String.{◌++◌}
use mathlib.Core.Path.{subst}
use mathlib.Core.Logic.{∥∥₁_elim}
use mathlib.Core.Logic.Or
use mathlib.Core.List.{Permᴰ, Mem, Mem-prop, mem-cons, mem-map_of_mem, exists_of_mem-map}
use mathlib.Core.List.Permᴰ
use telemetry_operator.Base.{String, ◌≡◌, ◌≢◌, refl, sym, ap, ◌∙◌, some, map}
use telemetry_operator.Base.Map.{lookup, insert, delete-Mem, Distinct, lookup_of_Mem, String-set}
use telemetry_operator.Base.Order.Laws.{str_le_trans, str_le_total, str_le_antisym}
use telemetry_operator.Base.Order.Sorting.{TieFree, sort-perm, sort-eq_of_perm}
use telemetry_operator.Kube.{Kube, SecretKeySelector, EnvVar, secret_key_ref}
use telemetry_operator.ConfigEnvs.{ConfigEnvs, env_name, reference, env_var, add, by_name, list}

SecretKeySelector-set : IsSet SecretKeySelector
SecretKeySelector-set = hlevel String-set

module _ (K : Kube) where
  list-Mem :
      (ce : ConfigEnvs) (n : String) (s : SecretKeySelector)
      → Mem (n, s) ce
      → Mem (env_var K (n, s)) (list K ce)
  unfolding list
  list-Mem ce n s m = mem-map_of_mem (env_var K) (Permᴰ.mem (Permᴰ.symm (sort-perm by_name ce)) m)

  -- A variable of the list is the variable of an entry of the map.
  list-elim :
      {P : Type 0} (ce : ConfigEnvs) (v : EnvVar K)
      → IsProp P
      → Mem v (list K ce)
      → ((n : String) (s : SecretKeySelector) → Mem (n, s) ce → env_var K (n, s) ≡ v → P)
      → P
  unfolding list
  list-elim ce v prop m f =
      ∥∥₁_elim (exists_of_mem-map m) prop
        (λ ((n, s), there, same). f n s (Permᴰ.mem (sort-perm by_name ce) there) same)

  -- The reference that Add returns is "${name}" for the name of a variable that List makes of the
  -- map that Add leaves, and whose value is the selector's secret; and every variable that List made
  -- of the map before, unless it has that name, it makes still.
  pub list-add :
      (selector : SecretKeySelector) (ce : ConfigEnvs)
      → (added : EnvVar K) × Mem added (list K (add selector ce).1)
        × ((add selector ce).0 ≡ "${" ++ added.name ++ "}")
        × (added.value_from ≡ some (secret_key_ref selector))
        × ((v : EnvVar K)
            → Mem v (list K ce)
            → v.name ≢ added.name
            → Mem v (list K (add selector ce).1))
  unfolding add reference insert
  list-add selector ce =
      let name = env_name selector in
      (
        env_var K (name, selector),
        list-Mem (insert name selector ce) name selector (mem-cons.1 (Or.inl refl)),
        refl,
        refl,
        (λ v m other. list-elim ce v Mem-prop m (λ n s there same.
            let differs : n ≢ name = λ e. other (sym (ap (λ x. x.name) same) ∙ e) in
            let kept =
              list-Mem (insert name selector ce) n s
                (mem-cons.1 (Or.inr (delete-Mem name n s ce there differs))) in
            subst (λ x. Mem x (list K (insert name selector ce))) same kept)),
      )

TieFree-of_Distinct :
    (ce : ConfigEnvs)
    → Distinct ce
    → (x y : String × SecretKeySelector) → Mem x ce
    → Mem y ce
    → TieFree by_name x y
TieFree-of_Distinct ce d (n, v) (m, w) hx hy p q =
    let same : n ≡ m = str_le_antisym n m p q in
    let found : lookup n ce ≡ some v = lookup_of_Mem SecretKeySelector-set n v ce d hx in
    let also : lookup m ce ≡ some w = lookup_of_Mem SecretKeySelector-set m w ce d hy in cc

-- List returns one and the same sequence of variables in whatever order the loop ranges over a map,
-- in which no name stands twice.
pub list-eq_of_perm :
    (K : Kube) (ce ce' : ConfigEnvs) → Distinct ce → Permᴰ ce ce' → list K ce ≡ list K ce'
unfolding list
list-eq_of_perm K ce ce' d p = ap (map _) (
    sort-eq_of_perm by_name (λ x y z. str_le_trans x.0 y.0 z.0) (λ x y. str_le_total x.0 y.0) p
      (TieFree-of_Distinct ce d))
