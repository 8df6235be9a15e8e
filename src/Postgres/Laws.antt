-- ===== src/Postgres/Laws.antt =====
-- The connection string does not depend on the order of the map, and the settings that the custom
-- resource states win over its free parameters.
use Prim.Native.String.{◌++◌}
use mathlib.Core.List.{Permᴰ}
use mathlib.Core.List.Permᴰ
use telemetry_operator.Base.{
  String, ◌≡◌, refl, ap, Bool, true, false, some, List, ◌∷◌, is_positive, ◌&&◌, arith, ◌==◌,
  if◌then◌else◌,
}
use telemetry_operator.Base.Map.{lookup, insert, lookup-insert}
use telemetry_operator.Base.Order.{str_le}
use telemetry_operator.Base.Order.Laws.{str_le_trans, str_le_total, str_le_antisym}
use telemetry_operator.Base.Order.Sorting.{sort-eq_of_perm}
use telemetry_operator.Base.Text.{show_ℤ, join}
use telemetry_operator.Kube.{StringMap}
use telemetry_operator.Api.Stores.{PostgresSpec}
use telemetry_operator.Postgres.{settings, pairs, render, connection_string, value_or_empty}

-- The text of one setting in front of the texts of the others.
abbrev push : String → String → List String → List String
push k v rest = if v == "" then rest else (k ++ "='" ++ v ++ "'") ∷ rest

push-perm : (k v : String) {l m : List String} → Permᴰ l m → Permᴰ (push k v l) (push k v m)
push-perm k v {l} {m} p =
    elim (v == "")
      as (λ b.
        Permᴰ (if b then l else (k ++ "='" ++ v ++ "'") ∷ l)
          (if b then m else (k ++ "='" ++ v ++ "'") ∷ m)) [ true ↦ p | false ↦ Permᴰ.cons refl p ]

kept-swap :
    (b c : Bool) (x y : String) (l : List String)
    → Permᴰ
        (let m = (if c then l else y ∷ l) in if b then m else x ∷ m)
        (let m = (if b then l else x ∷ l) in if c then m else y ∷ m)
kept-swap true c x y l = Permᴰ.refl _
kept-swap false true x y l = Permᴰ.refl _
kept-swap false false x y l = Permᴰ.swap refl refl

push-swap :
    (a b : String × String) (l : List String)
    → Permᴰ (push a.0 a.1 (push b.0 b.1 l)) (push b.0 b.1 (push a.0 a.1 l))
push-swap a b l = kept-swap (a.1 == "") (b.1 == "") _ _ l

pairs-perm : {kv kv' : StringMap} → Permᴰ kv kv' → Permᴰ (pairs kv) (pairs kv')
unfolding pairs
pairs-perm Permᴰ.nil = Permᴰ.nil
pairs-perm (Permᴰ.cons {a} e p) = rw e (push-perm _ _ (pairs-perm p))
pairs-perm (Permᴰ.swap {a} {b} {a'} {b'} {l} e f) = rw (e, f) (push-swap b' a' (pairs l))
pairs-perm (Permᴰ.trans p q) = Permᴰ.trans (pairs-perm p) (pairs-perm q)

-- Whatever the order in which the loop ranges over the settings, the connection string is the same.
pub connection_string-eq_of_perm :
    (p : PostgresSpec) (password_env_var : String) (kv : StringMap)
    → Permᴰ (settings p password_env_var) kv
    → render kv ≡ connection_string p password_env_var
unfolding connection_string render
connection_string-eq_of_perm p password_env_var kv order = ap (join " ") (
    sort-eq_of_perm str_le str_le_trans str_le_total (pairs-perm (Permᴰ.symm order))
      (λ x y hx hy below above. str_le_antisym x y below above))

lookup-insert_if :
    (c : Bool) (k j v : String) (m : StringMap)
    → lookup j (if c then insert k v m else m) ≡ (if c && (k == j) then some v else lookup j m)
lookup-insert_if true k j v m = lookup-insert k j v m
lookup-insert_if false k j v m = refl

-- The value of a setting: host, user, password reference and database are the custom resource's
-- own; so is the port if it is positive; sslmode is "disable" unless a parameter says otherwise; and
-- every other parameter stays.
pub lookup-settings :
    (p : PostgresSpec) (password_env_var key : String)
    → lookup key (settings p password_env_var) ≡ (
        if (value_or_empty (lookup "sslmode" p.params) == "") && ("sslmode" == key)
        then some "disable"
        else if "dbname" == key
        then some p.database
        else if "password" == key
        then some ("$(" ++ password_env_var ++ ")")
        else if "user" == key
        then some p.user
        else if is_positive p.port && ("port" == key)
        then some (show_ℤ p.port)
        else if "host" == key
        then some p.host
        else lookup key p.params)
unfolding settings
lookup-settings p password_env_var key =
    let no_port : (is_positive p.port && ("port" == "sslmode")) ≡ false = ground arith in
    simp (lookup-insert_if, lookup-insert, no_port)
