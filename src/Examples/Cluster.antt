-- ===== src/Examples/Cluster.antt =====
-- Objects that are built for one custom resource.
use mathlib.Core.Option
use mathlib.Core.List.{Permᴰ, Mem}
use telemetry_operator.Base.{String, ◌≢◌, ◌≡◌, refl, some, [], ◌∷◌, arith}
use telemetry_operator.Base.Map.{lookup, insert, Distinct}
use telemetry_operator.Kube.{StringMap, EnvVar, secret_key_ref}
use Prim.Native.String.{◌++◌}
use telemetry_operator.Base.Text.{show, show_ℤ}
use telemetry_operator.ConfigEnvs.{ConfigEnvs, add, list}
use telemetry_operator.ConfigEnvs.Laws.{list-add, list-eq_of_perm}
use telemetry_operator.Postgres.{settings, render, connection_string}
use telemetry_operator.Postgres.Laws.{connection_string-eq_of_perm, lookup-settings}
use telemetry_operator.Builders.Front.{telemetry_ingress_v1, telemetry_ingress_v1_beta1}
use telemetry_operator.Builders.Stores.{clickhouse_pvcs}
use telemetry_operator.Builders.Rights.{
  openshift_scc_role, openshift_scc_role_binding, service_account,
  cluster_agent_cluster_role_binding, cluster_agent_cluster_role,
}
use telemetry_operator.Builders.Claims.{get_elem?, claim_name, clickhouse_pvcs-name}
use telemetry_operator.Builders.Routing.{with_annotated_class, telemetry_ingress-same}
use telemetry_operator.Builders.Access.{Binds, role_bindings-Binds}
use telemetry_operator.Examples.World.{kube, resource, postgres, creds, missing}

clickhouse_pvcs-name_example :
    Option.map (claim_name kube) (get_elem? (clickhouse_pvcs kube resource) 3)
    ≡ some "data-prod-clickhouse-shard-1-1"
unfolding show
clickhouse_pvcs-name_example = clickhouse_pvcs-name kube resource 1 1 (omega arith) (omega arith)

telemetry_ingress-same_example :
    (telemetry_ingress_v1_beta1 kube resource
      ≡ with_annotated_class (telemetry_ingress_v1 kube resource))
    × (lookup "kubernetes.io/ingress.class"
          (telemetry_ingress_v1_beta1 kube resource).meta.annotations
        ≡ some "nginx")
unfolding telemetry_ingress_v1
telemetry_ingress-same_example = telemetry_ingress-same kube resource "kubernetes.io/ingress.class"

role_bindings-Binds_example :
    Binds
      (openshift_scc_role_binding kube resource "node-agent" "privileged")
      "Role"
      (openshift_scc_role kube resource "privileged").meta.name
      (service_account kube resource "node-agent")
    × ((openshift_scc_role_binding kube resource "node-agent" "privileged").meta.namespace
        ≡ (openshift_scc_role kube resource "privileged").meta.namespace)
    × Binds
        (cluster_agent_cluster_role_binding kube resource)
        "ClusterRole"
        (cluster_agent_cluster_role kube "" resource).meta.name
        (service_account kube resource "cluster-agent")
role_bindings-Binds_example = role_bindings-Binds kube "" resource "node-agent" "privileged"

-- Two secrets that a configuration refers to.
abbrev two_envs : ConfigEnvs
two_envs = ("B", creds) ∷ ("A", missing) ∷ []

two_envs-Distinct : Distinct two_envs
unfolding lookup
two_envs-Distinct = (refl, (refl, tt))

list-eq_of_perm_example : list kube two_envs ≡ list kube (("A", missing) ∷ ("B", creds) ∷ [])
list-eq_of_perm_example =
    list-eq_of_perm kube two_envs (("A", missing) ∷ ("B", creds) ∷ []) two_envs-Distinct
      (Permᴰ.swap refl refl)

list-add_example :
    (added : EnvVar kube) × Mem added (list kube (add creds two_envs).1)
    × ((add creds two_envs).0 ≡ "${" ++ added.name ++ "}")
    × (added.value_from ≡ some (secret_key_ref creds))
    × ((v : EnvVar kube)
        → Mem v (list kube two_envs)
        → v.name ≢ added.name
        → Mem v (list kube (add creds two_envs).1))
list-add_example = list-add kube creds two_envs

-- The settings in another order.
abbrev reordered : StringMap
reordered =
    ("dbname", "main")
    ∷ ("sslmode", "disable")
    ∷ ("user", "telemetry")
    ∷ ("password", "$(PASSWORD)")
    ∷ ("port", "5432")
    ∷ ("host", "db")
    ∷ ("connect_timeout", "10")
    ∷ []

reordered-perm : Permᴰ (settings postgres "PASSWORD") reordered
unfolding settings insert lookup show_ℤ show
reordered-perm =
    Permᴰ.trans (Permᴰ.swap refl refl) (Permᴰ.cons refl (Permᴰ.cons refl (Permᴰ.swap refl refl)))

connection_string-eq_of_perm_example : render reordered ≡ connection_string postgres "PASSWORD"
connection_string-eq_of_perm_example =
    connection_string-eq_of_perm postgres "PASSWORD" reordered reordered-perm

lookup-settings_example : lookup "sslmode" (settings postgres "PASSWORD") ≡ some "disable"
unfolding lookup
lookup-settings_example = lookup-settings postgres "PASSWORD" "sslmode"
