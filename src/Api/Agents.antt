-- ===== src/Api/Agents.antt =====
-- api/v1/telemetry_types.go: the node agent and the cluster agent.
use telemetry_operator.Base.{String, Bool, Option, none, List, []}
use telemetry_operator.Kube.{
  StringMap, Kube, SecretKeySelector, EnvVar, ResourceRequirements, zero_resource_requirements,
}
use telemetry_operator.Api.Common.{ImageSpec, zero_image_spec}

pub record AgentsOnlySpec : Type 0 where
  pub telemetry_url : String
  pub tls_skip_verify : Bool

pub record AgentTlsSpec : Type 0 where
  pub ca_secret : Option SecretKeySelector
  pub tls_skip_verify : Bool

pub record LogCollectorSpec : Type 0 where
  pub collect_log_based_metrics : Option Bool
  pub collect_log_entries : Option Bool

abbrev pub zero_log_collector_spec : LogCollectorSpec
zero_log_collector_spec = record { collect_log_based_metrics = none; collect_log_entries = none }

pub record EbpfTracerSpec : Type 0 where
  pub enabled : Option Bool
  pub sampling : String

abbrev pub zero_ebpf_tracer_spec : EbpfTracerSpec
zero_ebpf_tracer_spec = record { enabled = none; sampling = "" }

pub record EbpfProfilerSpec : Type 0 where
  pub enabled : Option Bool

abbrev pub zero_ebpf_profiler_spec : EbpfProfilerSpec
zero_ebpf_profiler_spec = record { enabled = none }

pub record NodeAgentSpec (K : Kube) : Type 0 where
  pub priority_class_name : String
  pub update_strategy : K.UpdateStrategy
  pub node_selector : StringMap
  pub affinity : Option K.Affinity
  pub resources : ResourceRequirements K
  pub tolerations : List K.Toleration
  pub pod_annotations : StringMap
  pub env : List (EnvVar K)
  pub image : ImageSpec
  pub tls : Option AgentTlsSpec
  pub log_collector : LogCollectorSpec
  pub ebpf_tracer : EbpfTracerSpec
  pub ebpf_profiler : EbpfProfilerSpec
  pub track_public_networks : List String

abbrev pub zero_node_agent_spec : (K : Kube) → NodeAgentSpec K
zero_node_agent_spec K = record {
  priority_class_name = "";
  update_strategy = K.zero_update_strategy;
  node_selector = [];
  affinity = none;
  resources = zero_resource_requirements K;
  tolerations = [];
  pod_annotations = [];
  env = [];
  image = zero_image_spec;
  tls = none;
  log_collector = zero_log_collector_spec;
  ebpf_tracer = zero_ebpf_tracer_spec;
  ebpf_profiler = zero_ebpf_profiler_spec;
  track_public_networks = [];
}

pub record KubeStateMetricsSpec : Type 0 where
  pub image : ImageSpec

abbrev pub zero_kube_state_metrics_spec : KubeStateMetricsSpec
zero_kube_state_metrics_spec = record { image = zero_image_spec }

pub record ClusterAgentSpec (K : Kube) : Type 0 where
  pub node_selector : StringMap
  pub affinity : Option K.Affinity
  pub resources : ResourceRequirements K
  pub tolerations : List K.Toleration
  pub pod_annotations : StringMap
  pub env : List (EnvVar K)
  pub image : ImageSpec
  pub tls : Option AgentTlsSpec
  pub kube_state_metrics : KubeStateMetricsSpec

abbrev pub zero_cluster_agent_spec : (K : Kube) → ClusterAgentSpec K
zero_cluster_agent_spec K = record {
  node_selector = [];
  affinity = none;
  resources = zero_resource_requirements K;
  tolerations = [];
  pod_annotations = [];
  env = [];
  image = zero_image_spec;
  tls = none;
  kube_state_metrics = zero_kube_state_metrics_spec;
}
