-- ===== src/Api/Telemetry.antt =====
-- api/v1/telemetry_types.go: the custom resource itself.
use telemetry_operator.Base.{ℤ, pos, String, Bool, false, Option, none, List, []}
use telemetry_operator.Kube.{
  StringMap, Kube, SecretKeySelector, EnvVar, ResourceRequirements, zero_resource_requirements,
  IngressTls,
}
use telemetry_operator.Api.Common.{ImageSpec, zero_image_spec, StorageSpec, zero_storage_spec}
use telemetry_operator.Api.Access.{SsoSpec, AiSpec}
use telemetry_operator.Api.Projects.{ProjectSpec}
use telemetry_operator.Api.Agents.{
  AgentsOnlySpec, NodeAgentSpec, zero_node_agent_spec, ClusterAgentSpec, zero_cluster_agent_spec,
}
use telemetry_operator.Api.Stores.{
  PrometheusSpec, zero_prometheus_spec, ExternalPrometheusSpec, ClickhouseSpec,
  zero_clickhouse_spec, ExternalClickhouseSpec, PostgresSpec,
}

pub record IngressSpec : Type 0 where
  pub class_name : Option String
  pub host : String
  pub path : String
  pub tls : Option IngressTls
  pub annotations : StringMap

pub record ServiceSpec : Type 0 where
  pub type : String
  pub port : ℤ
  pub node_port : ℤ
  pub grpc_port : ℤ
  pub grpc_node_port : ℤ
  pub https_port : ℤ
  pub https_node_port : ℤ
  pub annotations : StringMap

abbrev pub zero_service_spec : ServiceSpec
zero_service_spec = record {
  type = "";
  port = pos 0;
  node_port = pos 0;
  grpc_port = pos 0;
  grpc_node_port = pos 0;
  https_port = pos 0;
  https_node_port = pos 0;
  annotations = [];
}

pub record GrpcSpec : Type 0 where
  pub disabled : Bool

abbrev pub zero_grpc_spec : GrpcSpec
zero_grpc_spec = record { disabled = false }

pub record TlsSpec : Type 0 where
  pub cert_secret : Option SecretKeySelector
  pub key_secret : Option SecretKeySelector

pub record TelemetrySpec (K : Kube) : Type 0 where
  pub metrics_refresh_interval : String
  pub cache_ttl : String
  pub traces_ttl : String
  pub logs_ttl : String
  pub profiles_ttl : String
  pub auth_anonymous_role : String
  pub auth_bootstrap_admin_password : String
  pub http_disabled : Bool
  pub https_listen : String
  pub auth_bootstrap_admin_password_secret : Option SecretKeySelector
  pub grpc : GrpcSpec
  pub tls : Option TlsSpec
  pub store_metrics_in_clickhouse : Bool
  pub env : List (EnvVar K)
  pub image : ImageSpec
  pub agents_only : Option AgentsOnlySpec
  pub replicas : ℤ
  pub service : ServiceSpec
  pub ingress : Option IngressSpec
  pub node_selector : StringMap
  pub affinity : Option K.Affinity
  pub storage : StorageSpec K
  pub resources : ResourceRequirements K
  pub tolerations : List K.Toleration
  pub pod_annotations : StringMap
  pub api_key : String
  pub api_key_secret : Option SecretKeySelector
  pub node_agent : NodeAgentSpec K
  pub cluster_agent : ClusterAgentSpec K
  pub prometheus : PrometheusSpec K
  pub external_prometheus : Option ExternalPrometheusSpec
  pub clickhouse : ClickhouseSpec K
  pub external_clickhouse : Option ExternalClickhouseSpec
  pub postgres : Option PostgresSpec
  pub disable_builtin_alerts : Bool
  pub projects : List (ProjectSpec K)
  pub sso : Option SsoSpec
  pub ai : Option AiSpec

abbrev pub zero_telemetry_spec : (K : Kube) → TelemetrySpec K
zero_telemetry_spec K = record {
  metrics_refresh_interval = "";
  cache_ttl = "";
  traces_ttl = "";
  logs_ttl = "";
  profiles_ttl = "";
  auth_anonymous_role = "";
  auth_bootstrap_admin_password = "";
  http_disabled = false;
  https_listen = "";
  auth_bootstrap_admin_password_secret = none;
  grpc = zero_grpc_spec;
  tls = none;
  store_metrics_in_clickhouse = false;
  env = [];
  image = zero_image_spec;
  agents_only = none;
  replicas = pos 0;
  service = zero_service_spec;
  ingress = none;
  node_selector = [];
  affinity = none;
  storage = zero_storage_spec K;
  resources = zero_resource_requirements K;
  tolerations = [];
  pod_annotations = [];
  api_key = "";
  api_key_secret = none;
  node_agent = zero_node_agent_spec K;
  cluster_agent = zero_cluster_agent_spec K;
  prometheus = zero_prometheus_spec K;
  external_prometheus = none;
  clickhouse = zero_clickhouse_spec K;
  external_clickhouse = none;
  postgres = none;
  disable_builtin_alerts = false;
  projects = [];
  sso = none;
  ai = none;
}

pub record TelemetryStatus : Type 0 where
  pub status : String
  pub errors : List String

abbrev pub zero_telemetry_status : TelemetryStatus
zero_telemetry_status = record { status = ""; errors = [] }

pub record Telemetry (K : Kube) : Type 0 where
  pub name : String
  pub namespace : String
  pub spec : TelemetrySpec K
  pub status : TelemetryStatus

abbrev pub zero_telemetry : (K : Kube) → Telemetry K
zero_telemetry K = record {
  name = "";
  namespace = "";
  spec = zero_telemetry_spec K;
  status = zero_telemetry_status;
}
