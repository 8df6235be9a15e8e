-- ===== src/Builders/KeeperConfig.antt =====
-- controller/clickhouse_keeper.go: the configuration of a ClickHouse Keeper server, as a list of lines.
use Prim.Native.String.{◌++◌}
use mathlib.Core.List.{flat_map, ◌++◌ as append}
use telemetry_operator.Base.{ℤ, ℕ, String, List, [], ◌∷◌, rounds}
use telemetry_operator.Base.Text.{show}
use telemetry_operator.Kube.{Kube}
use telemetry_operator.Api.Telemetry.{Telemetry}
use telemetry_operator.Builders.Labels.{count_up}
use telemetry_operator.Builders.Pod.{or_text, lines_text}

pub record KeeperParams : Type 0 where
  pub namespace : String
  pub name : String
  pub ids : List ℕ
  pub log_level : String

abbrev keeper_head_lines : KeeperParams → List String
keeper_head_lines p =
    "<clickhouse>"
    ∷ "<logger>"
    ∷ "    <console>1</console>"
    ∷ ("    <level>" ++ p.log_level ++ "</level>")
    ∷ "</logger>"
    ∷ ""
    ∷ "<listen_host>::</listen_host>"
    ∷ "<listen_host>0.0.0.0</listen_host>"
    ∷ "<listen_try>1</listen_try>"
    ∷ ""
    ∷ "<keeper_server>"
    ∷ "    <tcp_port>9181</tcp_port>"
    ∷ "    <server_id>SERVER_ID</server_id>"
    ∷ "    <log_storage_path>/var/lib/clickhouse-keeper/coordination/log</log_storage_path>"
    ∷ "    <snapshot_storage_path>/var/lib/clickhouse-keeper/coordination/snapshots</snapshot_storage_path>"
    ∷ ""
    ∷ "    <coordination_settings>"
    ∷ "        <operation_timeout_ms>10000</operation_timeout_ms>"
    ∷ "        <session_timeout_ms>30000</session_timeout_ms>"
    ∷ "        <raft_logs_level>trace</raft_logs_level>"
    ∷ "    </coordination_settings>"
    ∷ ""
    ∷ "    <feature_flags>"
    ∷ "        <check_not_exists>0</check_not_exists>"
    ∷ "        <create_if_not_exists>0</create_if_not_exists>"
    ∷ "    </feature_flags>"
    ∷ ""
    ∷ "    <http_control>"
    ∷ "        <port>9182</port>"
    ∷ "        <readiness>"
    ∷ "            <endpoint>/ready</endpoint>"
    ∷ "        </readiness>"
    ∷ "    </http_control>"
    ∷ ""
    ∷ "    <raft_configuration>"
    ∷ []

abbrev pub server_host : KeeperParams → ℕ → String
server_host p id =
    p.name
    ++ "-clickhouse-keeper-"
    ++ show id
    ++ "."
    ++ p.name
    ++ "-clickhouse-keeper-headless."
    ++ p.namespace

abbrev pub hostname_line : String → String
hostname_line host = "            <hostname>" ++ host ++ "</hostname>"

abbrev server_lines : KeeperParams → ℕ → List String
server_lines p id =
    "        <server>"
    ∷ ("            <id>" ++ show id ++ "</id>")
    ∷ hostname_line (server_host p id)
    ∷ "            <port>9234</port>"
    ∷ "        </server>"
    ∷ []

-- The lines of the template's text.
unfoldable pub clickhouse_keeper_config_lines : KeeperParams → List String
clickhouse_keeper_config_lines p = append (keeper_head_lines p) (
    append (flat_map (server_lines p) p.ids)
      ("    </raft_configuration>" ∷ "</keeper_server>" ∷ "</clickhouse>" ∷ []))

module _ (K : Kube) where
  abbrev pub keeper_params : Telemetry K → ℤ → KeeperParams
  keeper_params cr replicas = record {
    namespace = cr.namespace;
    name = cr.name;
    ids = count_up 0 (rounds replicas);
    log_level = or_text cr.spec.clickhouse.keeper.log_level "warning";
  }

  -- clickhouseKeeperConfigCmd
  unfoldable pub clickhouse_keeper_config_cmd : String → Telemetry K → ℤ → String
  unfolding clickhouse_keeper_config_lines lines_text
  clickhouse_keeper_config_cmd filename cr replicas =
      "cat <<EOF | sed s/SERVER_ID/$(echo $HOSTNAME | sed -E 's/.*-([0-9]+)$/\\1/')/ > "
      ++ filename
      ++ lines_text (clickhouse_keeper_config_lines (keeper_params cr replicas))
      ++ "EOF"
