-- ===== src/Builders/Metrics.antt =====
-- controller/prometheus.go: the deployment of Prometheus and its configuration.
use Prim.Native.String.{◌++◌}
use telemetry_operator.Base.{pos, String, false, some, [], ◌∷◌}
use telemetry_operator.Kube.{Kube}
use telemetry_operator.Api.Common.{ImageSpec}
use telemetry_operator.Api.Telemetry.{Telemetry}
use telemetry_operator.Objects.{persistent_volume_claim, Container, PodTemplate, Deployment}
use telemetry_operator.Registry.{RegistryConfig}
use telemetry_operator.Versions.{Versions, prometheus, get_app_image}
use telemetry_operator.Builders.Labels.{labels, meta_of, non_root_security_context}
use telemetry_operator.Builders.Pod.{
  or_text, lines_text, container_port, empty_volume, mount, health_probe,
}
use telemetry_operator.Builders.Databases.{config_container}

abbrev pub prometheus_default_retention : String
prometheus_default_retention = "2d"

abbrev pub prometheus_default_out_of_order_time_window : String
prometheus_default_out_of_order_time_window = "1h"

-- prometheusConfigCmd, with the lines of its template
unfoldable pub prometheus_config_cmd : (K : Kube) → String → Telemetry K → String
unfolding lines_text
prometheus_config_cmd K filename cr =
    "cat <<EOF > "
    ++ filename
    ++ lines_text (
        "storage:"
        ∷ "  tsdb:"
        ∷ ("    out_of_order_time_window: "
            ++ or_text cr.spec.prometheus.out_of_order_time_window
                prometheus_default_out_of_order_time_window)
        ∷ "scrape_configs:"
        ∷ "  - job_name: \"prometheus\""
        ∷ "    static_configs:"
        ∷ "      - targets: [\"127.0.0.1:9090\"]"
        ∷ [])
    ++ "EOF"

module _ (K : Kube) (versions : Versions) (registry : RegistryConfig) where
  abbrev prometheus_container : Telemetry K → ImageSpec → Container K
  prometheus_container cr image = record {
    name = "prometheus";
    image = image.name;
    image_pull_policy = image.pull_policy;
    command = "prometheus" ∷ [];
    args =
        "--config.file=/config/prometheus.yml"
        ∷ "--web.listen-address=0.0.0.0:9090"
        ∷ "--storage.tsdb.path=/data"
        ∷ ("--storage.tsdb.retention.time="
            ++ or_text cr.spec.prometheus.retention prometheus_default_retention)
        ∷ "--web.enable-remote-write-receiver"
        ∷ "--web.enable-admin-api"
        ∷ "--query.max-samples=100000000"
        ∷ [];
    privileged = false;
    env = [];
    ports = container_port "http" (pos 9090) ∷ [];
    volume_mounts = mount "config" "/config" ∷ mount "data" "/data" ∷ [];
    resources = cr.spec.prometheus.resources;
    readiness_probe = some (health_probe "/-/healthy");
  }

  abbrev prometheus_template : Telemetry K → ImageSpec → PodTemplate K
  prometheus_template cr image = record {
    labels = labels K cr "prometheus";
    annotations = cr.spec.prometheus.pod_annotations;
    service_account_name = cr.name ++ "-prometheus";
    security_context = some non_root_security_context;
    host_pid = false;
    priority_class_name = "";
    node_selector = cr.spec.prometheus.node_selector;
    affinity = cr.spec.prometheus.affinity;
    tolerations = cr.spec.prometheus.tolerations;
    image_pull_secrets = image.pull_secrets;
    init_containers =
        config_container K image cr.spec.prometheus.resources
          (prometheus_config_cmd K "/config/prometheus.yml" cr)
        ∷ [];
    containers = prometheus_container cr image ∷ [];
    volumes =
        empty_volume "config"
        ∷ record {
          name = "data";
          source = persistent_volume_claim ("data-" ++ cr.name ++ "-prometheus");
        }
        ∷ [];
  }

  -- prometheusDeployment
  unfoldable pub prometheus_deployment : Telemetry K → Deployment K
  unfolding prometheus_config_cmd get_app_image
  prometheus_deployment cr = record {
    meta = meta_of K cr (cr.name ++ "-prometheus") "prometheus";
    match_labels = labels K cr "prometheus";
    strategy = "Recreate";
    template = some (prometheus_template cr (get_app_image versions registry cr.spec prometheus));
  }
