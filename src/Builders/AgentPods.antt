-- ===== src/Builders/AgentPods.antt =====
-- controller/{cluster_agent,node_agent}.go: the deployment of the cluster agent and the daemon set of
-- the node agent.
use Prim.Native.String.{◌++◌}
use telemetry_operator.Base.{String, true, false, none, some, [], ◌∷◌}
use telemetry_operator.Kube.{Kube}
use telemetry_operator.Api.Common.{ImageSpec}
use telemetry_operator.Api.Telemetry.{Telemetry}
use telemetry_operator.Objects.{Volume, host_path, Container, PodTemplate, Deployment, DaemonSet}
use telemetry_operator.Registry.{RegistryConfig}
use telemetry_operator.Versions.{Versions, cluster_agent, node_agent, get_app_image}
use telemetry_operator.Builders.Labels.{labels, meta_of, non_root_security_context}
use telemetry_operator.Builders.Pod.{empty_volume, mount}
use telemetry_operator.Builders.Agents.{
  ca_secret_of, ca_mounts, ca_volumes, cluster_agent_env, node_agent_env, node_agent_resources,
  node_agent_tolerations,
}

abbrev host_volume : String → String → Volume
host_volume name path = record { name = name; source = host_path path }

module _ (K : Kube) (versions : Versions) (registry : RegistryConfig) where
  abbrev cluster_agent_container : Telemetry K → ImageSpec → Container K
  cluster_agent_container cr image = record {
    name = "cluster-agent";
    image = image.name;
    image_pull_policy = image.pull_policy;
    command = [];
    args = "--listen=127.0.0.1:10301" ∷ "--metrics-wal-dir=/tmp" ∷ [];
    privileged = false;
    env = cluster_agent_env K cr;
    ports = [];
    volume_mounts = mount "tmp" "/tmp" ∷ ca_mounts K (ca_secret_of K cr.spec.cluster_agent.tls);
    resources = cr.spec.cluster_agent.resources;
    readiness_probe = none;
  }

  abbrev cluster_agent_template : Telemetry K → ImageSpec → PodTemplate K
  cluster_agent_template cr image = record {
    labels = labels K cr "telemetry-cluster-agent";
    annotations = cr.spec.cluster_agent.pod_annotations;
    service_account_name = cr.name ++ "-cluster-agent";
    security_context = some non_root_security_context;
    host_pid = false;
    priority_class_name = "";
    node_selector = cr.spec.cluster_agent.node_selector;
    affinity = cr.spec.cluster_agent.affinity;
    tolerations = cr.spec.cluster_agent.tolerations;
    image_pull_secrets = image.pull_secrets;
    init_containers = [];
    containers = cluster_agent_container cr image ∷ [];
    volumes = empty_volume "tmp" ∷ ca_volumes K (ca_secret_of K cr.spec.cluster_agent.tls);
  }

  -- clusterAgentDeployment
  unfoldable pub cluster_agent_deployment : Telemetry K → Deployment K
  unfolding cluster_agent_env get_app_image
  cluster_agent_deployment cr = record {
    meta = meta_of K cr (cr.name ++ "-cluster-agent") "telemetry-cluster-agent";
    match_labels = labels K cr "telemetry-cluster-agent";
    strategy = "";
    template =
        some (cluster_agent_template cr (get_app_image versions registry cr.spec cluster_agent));
  }

  abbrev node_agent_container : Telemetry K → ImageSpec → Container K
  node_agent_container cr image = record {
    name = "node-agent";
    image = image.name;
    image_pull_policy = image.pull_policy;
    command = [];
    args = "--cgroupfs-root=/host/sys/fs/cgroup" ∷ [];
    privileged = true;
    env = node_agent_env K cr;
    ports = [];
    volume_mounts =
        record { name = "cgroupfs"; mount_path = "/host/sys/fs/cgroup"; read_only = true }
        ∷ mount "tracefs" "/sys/kernel/tracing"
        ∷ mount "debugfs" "/sys/kernel/debug"
        ∷ mount "tmp" "/tmp"
        ∷ ca_mounts K (ca_secret_of K cr.spec.node_agent.tls);
    resources = node_agent_resources K cr.spec.node_agent.resources;
    readiness_probe = none;
  }

  abbrev node_agent_template : Telemetry K → ImageSpec → PodTemplate K
  node_agent_template cr image = record {
    labels = labels K cr "telemetry-node-agent";
    annotations = cr.spec.node_agent.pod_annotations;
    service_account_name = cr.name ++ "-node-agent";
    security_context = none;
    host_pid = true;
    priority_class_name = cr.spec.node_agent.priority_class_name;
    node_selector = cr.spec.node_agent.node_selector;
    affinity = cr.spec.node_agent.affinity;
    tolerations = node_agent_tolerations K cr.spec.node_agent.tolerations;
    image_pull_secrets = image.pull_secrets;
    init_containers = [];
    containers = node_agent_container cr image ∷ [];
    volumes =
        host_volume "cgroupfs" "/sys/fs/cgroup"
        ∷ host_volume "tracefs" "/sys/kernel/tracing"
        ∷ host_volume "debugfs" "/sys/kernel/debug"
        ∷ empty_volume "tmp"
        ∷ ca_volumes K (ca_secret_of K cr.spec.node_agent.tls);
  }

  -- nodeAgentDaemonSet
  unfoldable pub node_agent_daemon_set : Telemetry K → DaemonSet K
  unfolding node_agent_env get_app_image
  node_agent_daemon_set cr = record {
    meta = meta_of K cr (cr.name ++ "-node-agent") "telemetry-node-agent";
    match_labels = labels K cr "telemetry-node-agent";
    update_strategy = cr.spec.node_agent.update_strategy;
    template = node_agent_template cr (get_app_image versions registry cr.spec node_agent);
  }
