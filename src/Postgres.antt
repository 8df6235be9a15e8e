-- ===== src/Postgres.antt =====
-- controller/postgres.go: the connection string for Postgres. The map of parameters is an
-- association list; the loop may range over it in any order.
pub mod Laws
use Prim.Native.String.{◌++◌}
use mathlib.Core.List
use telemetry_operator.Base.{
  String, Bool, Option, none, some, List, [], ◌∷◌, is_positive, ◌==◌, if◌then◌else◌,
}
use telemetry_operator.Base.Map.{lookup, insert}
use telemetry_operator.Base.Order.{str_le, sort}
use telemetry_operator.Base.Text.{show_ℤ, join}
use telemetry_operator.Kube.{StringMap}
use telemetry_operator.Api.Stores.{PostgresSpec}

abbrev pub value_or_empty : Option String → String
value_or_empty none = ""
value_or_empty (some v) = v

-- The map kv after line 24 of the file.
unfoldable pub settings : PostgresSpec → String → StringMap
settings p password_env_var =
    let kv1 = insert "host" p.host p.params in
    let kv2 = if is_positive p.port then insert "port" (show_ℤ p.port) kv1 else kv1 in
    let kv3 = insert "user" p.user kv2 in
    let kv4 = insert "password" ("$(" ++ password_env_var ++ ")") kv3 in
    let kv5 = insert "dbname" p.database kv4 in
    if value_or_empty (lookup "sslmode" kv5) == "" then insert "sslmode" "disable" kv5 else kv5

-- k='v', where v is not empty
unfoldable pub pairs : StringMap → List String
pairs [] = []
pairs ((k, v) ∷ kv) =
    let rest = pairs kv in if v == "" then rest else (k ++ "='" ++ v ++ "'") ∷ rest

-- The text for a map, whose entries come in the order in which the loop ranges over it.
unfoldable pub render : StringMap → String
unfolding pairs
render kv = join " " (sort str_le (pairs kv))

-- postgresConnectionString
unfoldable pub connection_string : PostgresSpec → String → String
unfolding settings render
connection_string p password_env_var = render (settings p password_env_var)
