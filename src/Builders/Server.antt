-- ===== src/Builders/Server.antt =====
-- controller/telemetry.go: telemetryStatefulSet, the pods of the telemetry server. The versions and
-- the registry are the reconciler's; a list for each Go map gives the order of its loop.
use Prim.Native.String.{◌++◌}
use telemetry_operator.Base.{
  ℤ, pos, String, Bool, true, false, not, ◌&&◌, Option, none, some, List, [], ◌∷◌, is_zero_ℤ,
  is_positive, is_some, if◌then◌else◌,
}
use telemetry_operator.Base.Int.{int32}
use telemetry_operator.Base.Map.{insert}
use telemetry_operator.Kube.{Kube, SecretKeySelector}
use telemetry_operator.Api.Telemetry.{Telemetry, TelemetrySpec, TlsSpec}
use telemetry_operator.Objects.{
  PersistentVolumeClaim, ContainerPort, VolumeMount, SecretItems, Volume, config_map, projected,
  Probe, Container, PodTemplate, StatefulSet,
}
use telemetry_operator.ConfigEnvs.{ConfigEnvs}
use telemetry_operator.Registry.{RegistryConfig}
use telemetry_operator.Versions.{Versions, telemetry, get_app_image}
use telemetry_operator.Validate.{Outcome, returned, panicked}
use telemetry_operator.Builders.Labels.{labels, meta_of, non_root_security_context}
use telemetry_operator.Builders.Front.{telemetry_pvcs}
use telemetry_operator.Builders.Environment.{https_listen_of, server_env}
use telemetry_operator.Builders.Pod.{container_port, first, data_template, after_colon, atoi}

abbrev pub port_where : Bool → ContainerPort → List ContainerPort → List ContainerPort
port_where b p rest = if b then p ∷ rest else rest

-- The ports of the container.
unfoldable pub container_ports : (K : Kube) → TelemetrySpec K → List ContainerPort
unfolding after_colon atoi int32
container_ports K spec = port_where (not spec.http_disabled) (container_port "http" (pos 8080)) (
    port_where (not (is_zero_ℤ spec.service.https_port))
      (container_port "https" (int32 (atoi (after_colon (https_listen_of K spec)))))
      (port_where (not spec.grpc.disabled) (container_port "grpc" (pos 4317)) []))

abbrev secret_items : SecretKeySelector → String → SecretItems
secret_items selector path = record {
  secret_name = selector.name;
  items = record { key = selector.key; path = path } ∷ [];
}

-- The volume for TLS; a selector that is nil is a panic.
abbrev pub tls_volume : Option SecretKeySelector → Option SecretKeySelector → Outcome (List Volume)
tls_volume none key = panicked
tls_volume (some cert) none = panicked
tls_volume (some cert) (some key) = returned (
    record {
      name = "tls";
      source = projected (secret_items cert "tls.crt" ∷ secret_items key "tls.key" ∷ []);
    }
    ∷ [])

abbrev pub tls_volumes : Option TlsSpec → Outcome (List Volume)
tls_volumes none = returned []
tls_volumes (some tls) = tls_volume tls.cert_secret tls.key_secret

abbrev config_volume : String → Volume
config_volume name = record { name = "config"; source = config_map (name ++ "-telemetry") }

-- The mounts of the container.
unfoldable pub volume_mounts : Bool → List VolumeMount
volume_mounts has_tls =
    record { name = "config"; mount_path = "/config"; read_only = true }
    ∷ record { name = "data"; mount_path = "/data"; read_only = false }
    ∷ (if has_tls
        then record { name = "tls"; mount_path = "/config/tls"; read_only = true } ∷ []
        else [])

-- The probe, for http_disabled and whether there is an HTTPS port.
unfoldable pub readiness_probe : Bool → Bool → Probe
readiness_probe http_disabled has_https =
    if http_disabled && has_https
    then record { path = "/health"; port = "https"; scheme = "HTTPS"; timeout_seconds = pos 0 }
    else record { path = "/health"; port = "http"; scheme = ""; timeout_seconds = pos 0 }

-- replicas := int32(cr.Spec.Replicas), or 1 if that is not positive
unfoldable pub server_replicas : ℤ → ℤ
unfolding int32
server_replicas z = if is_positive (int32 z) then int32 z else pos 1

module _ (K : Kube) (versions : Versions) (registry : RegistryConfig) where
  abbrev server_container : Telemetry K → ConfigEnvs → Container K
  server_container cr config_envs = record {
    name = "telemetry";
    image = (get_app_image versions registry cr.spec telemetry).name;
    image_pull_policy = (get_app_image versions registry cr.spec telemetry).pull_policy;
    command = [];
    args = "--config=/config/config.yaml" ∷ "--data-dir=/data" ∷ [];
    privileged = false;
    env = server_env K cr config_envs;
    ports = container_ports K cr.spec;
    volume_mounts = volume_mounts (is_some cr.spec.tls);
    resources = cr.spec.resources;
    readiness_probe =
        some (readiness_probe cr.spec.http_disabled (not (is_zero_ℤ cr.spec.service.https_port)));
  }

  abbrev server_template : Telemetry K → ConfigEnvs → String → List Volume → PodTemplate K
  server_template cr config_envs config_hash tls = record {
    labels = labels K cr "telemetry";
    annotations = insert "checksum/config" config_hash cr.spec.pod_annotations;
    service_account_name = cr.name ++ "-telemetry";
    security_context = some non_root_security_context;
    host_pid = false;
    priority_class_name = "";
    node_selector = cr.spec.node_selector;
    affinity = cr.spec.affinity;
    tolerations = cr.spec.tolerations;
    image_pull_secrets = (get_app_image versions registry cr.spec telemetry).pull_secrets;
    init_containers = [];
    containers = server_container cr config_envs ∷ [];
    volumes = config_volume cr.name ∷ tls;
  }

  abbrev pub server_set :
      Telemetry K
      → ConfigEnvs
      → String
      → Outcome (List Volume)
      → Outcome (PersistentVolumeClaim K)
      → Outcome (StatefulSet K)
  server_set cr config_envs config_hash panicked claim = panicked
  server_set cr config_envs config_hash (returned tls) panicked = panicked
  server_set cr config_envs config_hash (returned tls) (returned claim) = returned (record {
    meta = meta_of K cr (cr.name ++ "-telemetry") "telemetry";
    match_labels = labels K cr "telemetry";
    replicas = server_replicas cr.spec.replicas;
    service_name = "";
    volume_claim_templates = data_template cr.namespace claim ∷ [];
    template = server_template cr config_envs config_hash tls;
  })

  -- telemetryStatefulSet
  unfoldable pub telemetry_stateful_set :
      Telemetry K → ConfigEnvs → String → Outcome (StatefulSet K)
  unfolding server_env container_ports volume_mounts readiness_probe server_replicas get_app_image
      telemetry_pvcs
  telemetry_stateful_set cr config_envs config_hash =
      server_set cr config_envs config_hash (tls_volumes cr.spec.tls) (first (telemetry_pvcs K cr))
