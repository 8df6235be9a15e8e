-- ===== src/Api/Stores.antt =====
-- api/v1/telemetry_types.go: the databases, deployed or external.
use telemetry_operator.Base.{ℤ, pos, String, Bool, Option, none, List, []}
use telemetry_operator.Kube.{
  StringMap, Kube, SecretKeySelector, ResourceRequirements, zero_resource_requirements,
}
use telemetry_operator.Api.Common.{
  ImageSpec, zero_image_spec, StorageSpec, zero_storage_spec, BasicAuthSpec,
}

pub record PrometheusSpec (K : Kube) : Type 0 where
  pub node_selector : StringMap
  pub affinity : Option K.Affinity
  pub storage : StorageSpec K
  pub resources : ResourceRequirements K
  pub tolerations : List K.Toleration
  pub pod_annotations : StringMap
  pub image : ImageSpec
  pub retention : String
  pub out_of_order_time_window : String

abbrev pub zero_prometheus_spec : (K : Kube) → PrometheusSpec K
zero_prometheus_spec K = record {
  node_selector = [];
  affinity = none;
  storage = zero_storage_spec K;
  resources = zero_resource_requirements K;
  tolerations = [];
  pod_annotations = [];
  image = zero_image_spec;
  retention = "";
  out_of_order_time_window = "";
}

pub record ExternalPrometheusSpec : Type 0 where
  pub url : String
  pub tls_skip_verify : Bool
  pub basic_auth : Option BasicAuthSpec
  pub custom_headers : StringMap
  pub remote_write_url : String

pub record S3Credentials : Type 0 where
  pub access_key_id : Option SecretKeySelector
  pub secret_access_key : Option SecretKeySelector

pub record ClickhouseS3Spec (K : Kube) : Type 0 where
  pub endpoint : String
  pub region : String
  pub credentials : Option S3Credentials
  pub cache_size : K.Quantity
  pub mode : String
  pub move_factor : String

pub record ClickhouseKeeperSpec (K : Kube) : Type 0 where
  pub replicas : ℤ
  pub node_selector : StringMap
  pub affinity : Option K.Affinity
  pub storage : StorageSpec K
  pub resources : ResourceRequirements K
  pub tolerations : List K.Toleration
  pub pod_annotations : StringMap
  pub image : ImageSpec
  pub log_level : String

abbrev pub zero_clickhouse_keeper_spec : (K : Kube) → ClickhouseKeeperSpec K
zero_clickhouse_keeper_spec K = record {
  replicas = pos 0;
  node_selector = [];
  affinity = none;
  storage = zero_storage_spec K;
  resources = zero_resource_requirements K;
  tolerations = [];
  pod_annotations = [];
  image = zero_image_spec;
  log_level = "";
}

pub record ClickhouseSpec (K : Kube) : Type 0 where
  pub shards : ℤ
  pub replicas : ℤ
  pub node_selector : StringMap
  pub affinity : Option K.Affinity
  pub storage : StorageSpec K
  pub resources : ResourceRequirements K
  pub tolerations : List K.Toleration
  pub pod_annotations : StringMap
  pub image : ImageSpec
  pub log_level : String
  pub keeper : ClickhouseKeeperSpec K
  pub s3 : Option (ClickhouseS3Spec K)

abbrev pub zero_clickhouse_spec : (K : Kube) → ClickhouseSpec K
zero_clickhouse_spec K = record {
  shards = pos 0;
  replicas = pos 0;
  node_selector = [];
  affinity = none;
  storage = zero_storage_spec K;
  resources = zero_resource_requirements K;
  tolerations = [];
  pod_annotations = [];
  image = zero_image_spec;
  log_level = "";
  keeper = zero_clickhouse_keeper_spec K;
  s3 = none;
}

pub record ExternalClickhouseSpec : Type 0 where
  pub address : String
  pub user : String
  pub database : String
  pub password : String
  pub password_secret : Option SecretKeySelector
  pub tls_enabled : Bool
  pub tls_skip_verify : Bool

pub record PostgresSpec : Type 0 where
  pub host : String
  pub port : ℤ
  pub user : String
  pub database : String
  pub password : String
  pub password_secret : Option SecretKeySelector
  pub params : StringMap
