-- ===== src/Builders/Databases.antt =====
-- controller/{clickhouse,clickhouse_keeper}.go: the stateful sets of ClickHouse and its keeper.
use Prim.Native.String.{◌++◌}
use mathlib.Core.List.{◌++◌ as append}
use telemetry_operator.Base.{
  ℤ, pos, ℕ, String, false, Option, none, some, List, [], ◌∷◌, is_positive, rounds, if◌then◌else◌,
  map,
}
use telemetry_operator.Base.Int.{int32}
use telemetry_operator.Base.Text.{show}
use telemetry_operator.Kube.{
  Kube, SecretKeySelector, EnvVar, secret_key_ref, field_ref, ResourceRequirements,
}
use telemetry_operator.Api.Common.{ImageSpec}
use telemetry_operator.Api.Stores.{ClickhouseS3Spec, S3Credentials}
use telemetry_operator.Api.Telemetry.{Telemetry}
use telemetry_operator.Objects.{PersistentVolumeClaim, Container, PodTemplate, StatefulSet}
use telemetry_operator.Registry.{RegistryConfig}
use telemetry_operator.Versions.{Versions, clickhouse, clickhouse_keeper, get_app_image}
use telemetry_operator.Validate.{Outcome, returned, panicked}
use telemetry_operator.Builders.Labels.{labels, meta_of, non_root_security_context, count_up}
use telemetry_operator.Builders.Stores.{
  clickhouse_password_secret, clickhouse_pvcs, clickhouse_keeper_pvcs, clickhouse_keeper_replicas,
}
use telemetry_operator.Builders.Pod.{
  env_value, container_port, first, data_template, empty_volume, mount, health_probe,
}
use telemetry_operator.Builders.ClickhouseConfig.{clickhouse_config_cmd}
use telemetry_operator.Builders.KeeperConfig.{clickhouse_keeper_config_cmd}

-- if n <= 0 { n = 1 }
abbrev pub one_if_not_positive : ℤ → ℤ
one_if_not_positive z = if is_positive z then z else pos 1

-- The init container that writes the configuration.
abbrev pub config_container : (K : Kube) → ImageSpec → ResourceRequirements K → String → Container K
config_container K image resources command = record {
  name = "config";
  image = image.name;
  image_pull_policy = image.pull_policy;
  command = "/bin/sh" ∷ "-c" ∷ [];
  args = command ∷ [];
  privileged = false;
  env = [];
  ports = [];
  volume_mounts = mount "config" "/config" ∷ [];
  resources = resources;
  readiness_probe = none;
}

abbrev secret_env : (K : Kube) → String → Option SecretKeySelector → List (EnvVar K)
secret_env K name none = []
secret_env K name (some selector) =
    record { name = name; value = ""; value_from = some (secret_key_ref selector) } ∷ []

abbrev credentials_env : (K : Kube) → Option S3Credentials → List (EnvVar K)
credentials_env K none = []
credentials_env K (some c) =
    append (secret_env K "AWS_ACCESS_KEY_ID" c.access_key_id)
      (secret_env K "AWS_SECRET_ACCESS_KEY" c.secret_access_key)

abbrev s3_env : (K : Kube) → Option (ClickhouseS3Spec K) → List (EnvVar K)
s3_env K none = []
s3_env K (some s3) = credentials_env K s3.credentials

-- replicas := int32(cr.Spec.Clickhouse.Replicas), or 1
unfoldable pub clickhouse_replicas : (K : Kube) → Telemetry K → ℤ
unfolding int32
clickhouse_replicas K cr = one_if_not_positive (int32 cr.spec.clickhouse.replicas)

module _ (K : Kube) (versions : Versions) (registry : RegistryConfig) where
  abbrev clickhouse_container : Telemetry K → ImageSpec → ℕ → Container K
  clickhouse_container cr image shard = record {
    name = "clickhouse-server";
    image = image.name;
    image_pull_policy = image.pull_policy;
    command = "clickhouse-server" ∷ [];
    args = "--config-file=/config/config.xml" ∷ [];
    privileged = false;
    env =
        env_value K "CLICKHOUSE_SHARD_ID" ("shard-" ++ show shard)
        ∷ record {
          name = "CLICKHOUSE_REPLICA_ID";
          value = "";
          value_from = some (field_ref "metadata.name");
        }
        ∷ record {
          name = "CLICKHOUSE_PASSWORD";
          value = "";
          value_from = some (secret_key_ref (clickhouse_password_secret K cr));
        }
        ∷ s3_env K cr.spec.clickhouse.s3;
    ports = container_port "http" (pos 8123) ∷ container_port "tcp" (pos 9000) ∷ [];
    volume_mounts = mount "config" "/config" ∷ mount "data" "/var/lib/clickhouse" ∷ [];
    resources = cr.spec.clickhouse.resources;
    readiness_probe = some (health_probe "/ping");
  }

  abbrev clickhouse_template : Telemetry K → ImageSpec → ℤ → ℤ → ℕ → PodTemplate K
  clickhouse_template cr image shards replicas shard = record {
    labels = labels K cr "clickhouse";
    annotations = cr.spec.clickhouse.pod_annotations;
    service_account_name = cr.name ++ "-clickhouse";
    security_context = some non_root_security_context;
    host_pid = false;
    priority_class_name = "";
    node_selector = cr.spec.clickhouse.node_selector;
    affinity = cr.spec.clickhouse.affinity;
    tolerations = cr.spec.clickhouse.tolerations;
    image_pull_secrets = image.pull_secrets;
    init_containers =
        config_container K image cr.spec.clickhouse.resources (
          clickhouse_config_cmd K "/config/config.xml" cr shards replicas
            (clickhouse_keeper_replicas K cr))
        ∷ [];
    containers = clickhouse_container cr image shard ∷ [];
    volumes = empty_volume "config" ∷ [];
  }

  -- The body of the loop of clickhouseStatefulSets.
  abbrev pub clickhouse_set : Telemetry K → PersistentVolumeClaim K → ℕ → StatefulSet K
  clickhouse_set cr claim shard = record {
    meta = meta_of K cr (cr.name ++ "-clickhouse-shard-" ++ show shard) "clickhouse";
    match_labels = labels K cr "clickhouse";
    replicas = clickhouse_replicas K cr;
    service_name = cr.name ++ "-clickhouse-headless";
    volume_claim_templates = data_template cr.namespace claim ∷ [];
    template =
        clickhouse_template cr (get_app_image versions registry cr.spec clickhouse)
          (one_if_not_positive cr.spec.clickhouse.shards) (clickhouse_replicas K cr) shard;
  }

  abbrev pub clickhouse_sets :
      Telemetry K → Outcome (PersistentVolumeClaim K) → Outcome (List (StatefulSet K))
  clickhouse_sets cr panicked = panicked
  clickhouse_sets cr (returned claim) = returned (
      map (clickhouse_set cr claim)
        (count_up 0 (rounds (one_if_not_positive cr.spec.clickhouse.shards))))

  -- clickhouseStatefulSets. There is at least one round, and the first one panics if there is no
  -- claim.
  unfoldable pub clickhouse_stateful_sets : Telemetry K → Outcome (List (StatefulSet K))
  unfolding clickhouse_pvcs clickhouse_config_cmd clickhouse_replicas get_app_image
  clickhouse_stateful_sets cr = clickhouse_sets cr (first (clickhouse_pvcs K cr))

  abbrev keeper_container : Telemetry K → ImageSpec → Container K
  keeper_container cr image = record {
    name = "clickhouse-keeper";
    image = image.name;
    image_pull_policy = image.pull_policy;
    command = "clickhouse-keeper" ∷ [];
    args = "--config-file=/config/config.xml" ∷ [];
    privileged = false;
    env = [];
    ports =
        container_port "client" (pos 9181)
        ∷ container_port "control" (pos 9182)
        ∷ container_port "inter" (pos 9234)
        ∷ [];
    volume_mounts = mount "config" "/config" ∷ mount "data" "/var/lib/clickhouse-keeper" ∷ [];
    resources = cr.spec.clickhouse.keeper.resources;
    readiness_probe = none;
  }

  abbrev keeper_template : Telemetry K → ImageSpec → ℤ → PodTemplate K
  keeper_template cr image replicas = record {
    labels = labels K cr "clickhouse-keeper";
    annotations = cr.spec.clickhouse.keeper.pod_annotations;
    service_account_name = cr.name ++ "-clickhouse-keeper";
    security_context = some non_root_security_context;
    host_pid = false;
    priority_class_name = "";
    node_selector = cr.spec.clickhouse.keeper.node_selector;
    affinity = cr.spec.clickhouse.keeper.affinity;
    tolerations = cr.spec.clickhouse.keeper.tolerations;
    image_pull_secrets = image.pull_secrets;
    init_containers =
        config_container K image cr.spec.clickhouse.keeper.resources
          (clickhouse_keeper_config_cmd K "/config/config.xml" cr replicas)
        ∷ [];
    containers = keeper_container cr image ∷ [];
    volumes = empty_volume "config" ∷ [];
  }

  abbrev pub keeper_set :
      Telemetry K → ℤ → Outcome (PersistentVolumeClaim K) → Outcome (StatefulSet K)
  keeper_set cr replicas panicked = panicked
  keeper_set cr replicas (returned claim) = returned (record {
    meta = meta_of K cr (cr.name ++ "-clickhouse-keeper") "clickhouse-keeper";
    match_labels = labels K cr "clickhouse-keeper";
    replicas = replicas;
    service_name = cr.name ++ "-clickhouse-keeper-headless";
    volume_claim_templates = data_template cr.namespace claim ∷ [];
    template =
        keeper_template cr (get_app_image versions registry cr.spec clickhouse_keeper) replicas;
  })

  -- clickhouseKeeperStatefulSet
  unfoldable pub clickhouse_keeper_stateful_set : Telemetry K → Outcome (StatefulSet K)
  unfolding clickhouse_keeper_pvcs clickhouse_keeper_config_cmd clickhouse_keeper_replicas int32
      get_app_image
  clickhouse_keeper_stateful_set cr =
      keeper_set cr (int32 (clickhouse_keeper_replicas K cr)) (first (clickhouse_keeper_pvcs K cr))
