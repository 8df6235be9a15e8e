-- ===== src/Builders/ClickhouseConfig.antt =====
-- controller/clickhouse.go: the configuration of a ClickHouse server. The template is a list of lines:
-- each action with a `-` takes the line break before it away, so that a loop puts whole lines out.
use Prim.Native.String.{◌++◌}
use mathlib.Core.List.{flat_map, ◌++◌ as append}
use telemetry_operator.Base.{ℤ, ℕ, String, Option, none, some, List, [], ◌∷◌, rounds}
use telemetry_operator.Base.Text.{show}
use telemetry_operator.Kube.{Kube, or_default}
use telemetry_operator.Api.Stores.{ClickhouseS3Spec}
use telemetry_operator.Api.Telemetry.{Telemetry}
use telemetry_operator.Builders.Labels.{count_up}
use telemetry_operator.Builders.Pod.{or_text, lines_text}
use telemetry_operator.Builders.ClickhouseS3.{S3ConfigParams, s3_lines}

-- The parameters of the template.
pub record ClickhouseParams : Type 0 where
  pub namespace : String
  pub name : String
  pub shards : List ℕ
  pub replicas : List ℕ
  pub keepers : List ℕ
  pub log_level : String
  pub s3 : Option S3ConfigParams

abbrev pub head_lines : ClickhouseParams → List String
head_lines p =
    "<clickhouse>"
    ∷ ""
    ∷ "<display_name from_env=\"CLICKHOUSE_REPLICA_ID\"/>"
    ∷ ""
    ∷ "<profiles>"
    ∷ "    <default>"
    ∷ "    </default>"
    ∷ "</profiles>"
    ∷ ""
    ∷ "<users>"
    ∷ "    <default>"
    ∷ "        <password from_env=\"CLICKHOUSE_PASSWORD\"/>"
    ∷ "    </default>"
    ∷ "</users>"
    ∷ ""
    ∷ "<logger>"
    ∷ "    <console>1</console>"
    ∷ ("    <level>" ++ p.log_level ++ "</level>")
    ∷ "</logger>"
    ∷ ""
    ∷ "<listen_host>::</listen_host>"
    ∷ "<listen_host>0.0.0.0</listen_host>"
    ∷ "<listen_try>1</listen_try>"
    ∷ ""
    ∷ "<http_port>8123</http_port>"
    ∷ "<tcp_port>9000</tcp_port>"
    ∷ "<interserver_http_port>9009</interserver_http_port>"
    ∷ ""
    ∷ "<concurrent_threads_soft_limit_num>0</concurrent_threads_soft_limit_num>"
    ∷ "<concurrent_threads_soft_limit_ratio_to_cores>2</concurrent_threads_soft_limit_ratio_to_cores>"
    ∷ "<max_concurrent_queries>1000</max_concurrent_queries>"
    ∷ "<max_server_memory_usage>0</max_server_memory_usage>"
    ∷ "<max_thread_pool_size>10000</max_thread_pool_size>"
    ∷ "<async_load_databases>true</async_load_databases>"
    ∷ "<mlock_executable>true</mlock_executable>"
    ∷ ""
    ∷ "<macros>"
    ∷ "    <shard from_env=\"CLICKHOUSE_SHARD_ID\"/>"
    ∷ "    <replica from_env=\"CLICKHOUSE_REPLICA_ID\"/>"
    ∷ "</macros>"
    ∷ ""
    ∷ "<remote_servers>"
    ∷ "    <default>"
    ∷ []

-- The name by which the servers reach one another.
abbrev pub replica_host : ClickhouseParams → ℕ → ℕ → String
replica_host p shard replica =
    p.name
    ++ "-clickhouse-shard-"
    ++ show shard
    ++ "-"
    ++ show replica
    ++ "."
    ++ p.name
    ++ "-clickhouse-headless."
    ++ p.namespace

abbrev pub host_line : String → String
host_line host = "                <host>" ++ host ++ "</host>"

abbrev pub replica_lines : ClickhouseParams → ℕ → ℕ → List String
replica_lines p shard replica =
    "            <replica>"
    ∷ host_line (replica_host p shard replica)
    ∷ "                <port>9000</port>"
    ∷ "                <user>default</user>"
    ∷ "                <password from_env=\"CLICKHOUSE_PASSWORD\"/>"
    ∷ "            </replica>"
    ∷ []

abbrev pub shard_lines : ClickhouseParams → ℕ → List String
shard_lines p shard =
    append
      ("        <shard>" ∷ "            <internal_replication>true</internal_replication>" ∷ [])
      (append (flat_map (replica_lines p shard) p.replicas) ("        </shard>" ∷ []))

abbrev pub keeper_host : ClickhouseParams → ℕ → String
keeper_host p keeper =
    p.name
    ++ "-clickhouse-keeper-"
    ++ show keeper
    ++ "."
    ++ p.name
    ++ "-clickhouse-keeper-headless."
    ++ p.namespace

abbrev pub keeper_line : String → String
keeper_line host = "        <host>" ++ host ++ "</host>"

abbrev pub keeper_lines : ClickhouseParams → ℕ → List String
keeper_lines p keeper =
    "    <node>"
    ∷ keeper_line (keeper_host p keeper)
    ∷ "        <port>9181</port>"
    ∷ "    </node>"
    ∷ []

abbrev pub middle_lines : List String
middle_lines = "    </default>" ∷ "</remote_servers>" ∷ "" ∷ "<zookeeper>" ∷ []

abbrev end_lines : List String
end_lines =
    "</zookeeper>" ∷ "" ∷ "<distributed_ddl>" ∷ "    <path>/clickhouse/task_queue/ddl</path>"
    ∷ "</distributed_ddl>" ∷ []

-- The lines of the template's text.
unfoldable pub clickhouse_config_lines : ClickhouseParams → List String
clickhouse_config_lines p = append (head_lines p) (
    append (flat_map (shard_lines p) p.shards) (
      append middle_lines (
        append (flat_map (keeper_lines p) p.keepers)
          (append end_lines (append (s3_lines p.s3) ("" ∷ "</clickhouse>" ∷ []))))))

module _ (K : Kube) where
  abbrev s3_config_params : Option (ClickhouseS3Spec K) → Option S3ConfigParams
  s3_config_params none = none
  s3_config_params (some s3) = some (record {
    endpoint = s3.endpoint;
    region = s3.region;
    cache_size = K.quantity_string (or_default K s3.cache_size "10Gi");
    mode = or_text s3.mode "tiered";
    move_factor = or_text s3.move_factor "0.1";
  })

  -- The parameters that clickhouseConfigCmd fills in.
  abbrev pub clickhouse_params : Telemetry K → ℤ → ℤ → ℤ → ClickhouseParams
  clickhouse_params cr shards replicas keepers = record {
    namespace = cr.namespace;
    name = cr.name;
    shards = count_up 0 (rounds shards);
    replicas = count_up 0 (rounds replicas);
    keepers = count_up 0 (rounds keepers);
    log_level = or_text cr.spec.clickhouse.log_level "warning";
    s3 = s3_config_params cr.spec.clickhouse.s3;
  }

  -- clickhouseConfigCmd
  unfoldable pub clickhouse_config_cmd : String → Telemetry K → ℤ → ℤ → ℤ → String
  unfolding clickhouse_config_lines lines_text
  clickhouse_config_cmd filename cr shards replicas keepers =
      "cat <<EOF > "
      ++ filename
      ++ lines_text (clickhouse_config_lines (clickhouse_params cr shards replicas keepers))
      ++ "EOF"
