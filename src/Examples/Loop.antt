-- ===== src/Examples/Loop.antt =====
-- Runs of Reconcile on the resource, and the objects of ClickHouse.
use Prim.Native.String.{◌++◌}
use mathlib.Core.List.{Memᴰ, flat_map}
use telemetry_operator.Base.{◌≡◌, refl, pos, negsuc, false, none, [], ◌∷◌, arith, rounds, ℕ, ◌<◌}
use telemetry_operator.Base.Int.{int32}
use telemetry_operator.Builders.Labels.{count_up, claim_of}
use telemetry_operator.Kube.{or_default}
use telemetry_operator.Builders.Stores.{
  clickhouse_pvcs, clickhouse_keeper_pvcs, clickhouse_keeper_replicas,
}
use telemetry_operator.Base.Text.{show}
use telemetry_operator.Base.Predicates.{All}
use telemetry_operator.Api.Telemetry.{Telemetry}
use telemetry_operator.Objects.{PersistentVolumeClaim, StatefulSet}
use telemetry_operator.Cluster.{Server, ok, found}
use telemetry_operator.Validate.{returned}
use telemetry_operator.Validate.Returns.{did_return}
use telemetry_operator.Validate.Frame.{validate_telemetry-frame}
use telemetry_operator.Builders.Pod.{container_port}
use telemetry_operator.Builders.Server.{container_ports}
use telemetry_operator.Builders.ClickhouseConfig.{host_line, keeper_line}
use telemetry_operator.Builders.Databases.{
  clickhouse_replicas, clickhouse_set, clickhouse_stateful_sets, clickhouse_keeper_stateful_set,
}
use telemetry_operator.Builders.Ports.{has_colon, container_ports-listen}
use telemetry_operator.Builders.Hosts.{Configures, pod_host, clickhouse_stateful_sets-Configures}
use telemetry_operator.Builders.Bounds.{InRange, stateful_sets-InRange}
use telemetry_operator.Reconcile.Calls.{Environment}
use telemetry_operator.Reconcile.Loop.{Reconciler, reconcile_found, reconcile}
use telemetry_operator.Reconcile.Since.{Since}
use telemetry_operator.Reconcile.Ready.{Ready}
use telemetry_operator.Reconcile.Owned.{Owned}
use telemetry_operator.Reconcile.Status.{
  Reports, validation, did_return-reconcile_found, reconcile_found-Reports,
}
use telemetry_operator.Reconcile.Order.{reconcile-Since}
use telemetry_operator.Reconcile.Stays.{reconcile_found-Owned}
use telemetry_operator.Examples.World.{kube, server, resource}
use telemetry_operator.Examples.Validation.{validated, result_lem}
use telemetry_operator.Examples.Pods.{registry, with_tls, built_lem}

abbrev pub env : Environment kube
env = record {
  deny_global_secrets = "";
  ingress_api_version = "networking.k8s.io/v1";
  versions = [];
  registry = registry;
  marshal = λ config. ok "projects: []";
}

abbrev fresh : Reconciler
fresh = record { instances = []; deployment_deleted = false }

-- A server that has the resource.
abbrev serving : Server kube
serving = record server { telemetry = λ history namespace name. found resource }

abbrev broken : Telemetry kube
broken = record resource {
  spec = record resource.spec {
    clickhouse = record resource.spec.clickhouse { shards = negsuc 0 };
  };
}

did_return-reconcile_found_example :
    did_return (reconcile_found kube env server broken fresh []).reply ≡ false
did_return-reconcile_found_example = did_return-reconcile_found kube env server broken fresh []

reconcile_found-Reports_example :
    Reports kube env server resource
      (validation kube env server resource []).1.errors
      (reconcile_found kube env server resource fresh [])
reconcile_found-Reports_example = reconcile_found-Reports kube env server resource fresh []

reconcile-Since_example :
    Since Ready [] (reconcile kube env serving ("monitoring", "prod") fresh []).history
reconcile-Since_example = reconcile-Since kube env serving ("monitoring", "prod") fresh

reconcile_found-Owned_example :
    Since (Owned resource) [] (reconcile_found kube env server resource fresh []).history
reconcile_found-Owned_example = reconcile_found-Owned kube env server resource fresh []

validate_telemetry-frame_example : validated ≡ record resource {
  spec = record resource.spec {
    replicas = validated.spec.replicas;
    service = validated.spec.service;
    tls = validated.spec.tls;
    auth_bootstrap_admin_password = validated.spec.auth_bootstrap_admin_password;
    auth_bootstrap_admin_password_secret = validated.spec.auth_bootstrap_admin_password_secret;
    projects = validated.spec.projects;
    sso = validated.spec.sso;
    ai = validated.spec.ai;
    clickhouse = record resource.spec.clickhouse { s3 = validated.spec.clickhouse.s3 };
  };
}
validate_telemetry-frame_example =
    validate_telemetry-frame server resource validated [] [] result_lem

-- The resource with a listen address of its own.
abbrev listening : Telemetry kube
listening = record with_tls {
  spec = record with_tls.spec { https_listen = "0.0.0.0" ++ ":" ++ show 9443 };
}

no_colon : has_colon "0.0.0.0" ≡ false
unfolding has_colon
no_colon = refl

container_ports-listen_example :
    Memᴰ (container_port "https" (pos 9443)) (container_ports kube listening.spec)
container_ports-listen_example =
    container_ports-listen kube listening.spec "0.0.0.0" 9443 refl no_colon (omega arith) refl

abbrev set_of : PersistentVolumeClaim kube → ℕ → StatefulSet kube
set_of = clickhouse_set kube [] registry with_tls

-- The first claim of ClickHouse.
abbrev data_claim : PersistentVolumeClaim kube
data_claim = claim_of kube with_tls "clickhouse" [] 10 none "data-prod-clickhouse-shard-0-0"

sets_lem :
    clickhouse_stateful_sets kube [] registry with_tls
    ≡ returned (set_of data_claim 0 ∷ set_of data_claim 1 ∷ [])
unfolding clickhouse_stateful_sets clickhouse_pvcs count_up flat_map or_default
sets_lem = refl

keepers_lem :
    (k : StatefulSet kube) × (clickhouse_keeper_stateful_set kube [] registry with_tls ≡ returned k)
    × (2 < rounds k.replicas)
unfolding clickhouse_keeper_stateful_set clickhouse_keeper_pvcs clickhouse_keeper_replicas count_up
    int32
keepers_lem = (_, refl, omega arith)

two_replicas : 1 < rounds (clickhouse_replicas kube with_tls)
unfolding clickhouse_replicas int32
two_replicas = omega arith

clickhouse_stateful_sets-Configures_example :
    Configures (set_of data_claim 0) (host_line (pod_host (set_of data_claim 1) 1))
    × Configures (set_of data_claim 0) (keeper_line (pod_host keepers_lem.0 2))
clickhouse_stateful_sets-Configures_example =
    clickhouse_stateful_sets-Configures kube [] registry with_tls
      (set_of data_claim 0 ∷ set_of data_claim 1 ∷ []) keepers_lem.0 (set_of data_claim 0)
      (set_of data_claim 1) 1 2 sets_lem keepers_lem.1 (Memᴰ.head refl) (Memᴰ.tail (Memᴰ.head refl))
      two_replicas keepers_lem.2

stateful_sets-InRange_example :
    InRange built_lem.0.replicas
    × All (λ t. InRange t.replicas) (set_of data_claim 0 ∷ set_of data_claim 1 ∷ [])
stateful_sets-InRange_example =
    stateful_sets-InRange kube [] registry with_tls [] "hash" built_lem.0
      (set_of data_claim 0 ∷ set_of data_claim 1 ∷ []) built_lem.1 sets_lem
