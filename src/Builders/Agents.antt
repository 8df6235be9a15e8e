-- ===== src/Builders/Agents.antt =====
-- controller/{cluster_agent,node_agent}.go: the pods of the two agents.
use Prim.Native.Char.{code}
use Prim.Native.String as S
use Prim.Native.String.{◌++◌}
use mathlib.Core.List.{◌++◌ as append}
use telemetry_operator.Base.{
  String, Bool, true, false, not, ◌&&◌, ◌||◌, Option, none, some, List, [], ◌∷◌, is_some, eqb, ◌==◌,
  if◌then◌else◌,
}
use telemetry_operator.Base.Text.{show_ℤ, join}
use telemetry_operator.Kube.{Kube, SecretKeySelector, EnvVar, ResourceRequirements, ResourceList}
use telemetry_operator.Api.Agents.{AgentsOnlySpec, AgentTlsSpec, NodeAgentSpec}
use telemetry_operator.Api.Telemetry.{Telemetry}
use telemetry_operator.Objects.{VolumeMount, Volume, secret}
use telemetry_operator.Builders.Pod.{env_value, env_var_from_secret, env_if, or_text}

-- strings.TrimRight(s, "/")
unfoldable pub trim_slashes : String → String
trim_slashes S.[] = S.[]
trim_slashes (S.◌∷◌ c s) =
    let rest = trim_slashes s in if (rest == "") && eqb (code c) b'/' then "" else S.◌∷◌ c rest

module _ (K : Kube) where
  -- The URL of the telemetry server's service.
  unfoldable pub service_url : Telemetry K → String
  unfolding show_ℤ
  service_url cr =
      let https = is_some cr.spec.tls || cr.spec.http_disabled in
      (if https then "https" else "http")
      ++ "://"
      ++ cr.name
      ++ "-telemetry."
      ++ cr.namespace
      ++ ":"
      ++ show_ℤ (if https then cr.spec.service.https_port else cr.spec.service.port)

  -- That URL, or the one of an installation of agents alone, to which `trim` is applied.
  abbrev pub agent_url : (String → String) → String → Option AgentsOnlySpec → String
  agent_url trim service none = service
  agent_url trim service (some a) =
      if not (a.telemetry_url == "") then trim a.telemetry_url else service

  abbrev skips_only : Option AgentsOnlySpec → Bool
  skips_only none = false
  skips_only (some a) = a.tls_skip_verify

  abbrev skips_tls : Option AgentTlsSpec → Bool
  skips_tls none = false
  skips_tls (some t) = t.tls_skip_verify

  abbrev pub ca_secret_of : Option AgentTlsSpec → Option SecretKeySelector
  ca_secret_of none = none
  ca_secret_of (some t) = t.ca_secret

  abbrev pub ca_mounts : Option SecretKeySelector → List VolumeMount
  ca_mounts none = []
  ca_mounts (some s) =
      record { name = "ca"; mount_path = "/etc/telemetry-ca"; read_only = true } ∷ []

  abbrev pub ca_volumes : Option SecretKeySelector → List Volume
  ca_volumes none = []
  ca_volumes (some s) =
      record {
        name = "ca";
        source =
            secret (record {
              secret_name = s.name;
              items = record { key = s.key; path = "ca.crt" } ∷ [];
            });
      }
      ∷ []

  -- API_KEY, INSECURE_SKIP_VERIFY and CA_FILE of both agents.
  abbrev access_env : Telemetry K → Option AgentTlsSpec → List (EnvVar K)
  access_env cr tls =
      env_var_from_secret K "API_KEY" cr.spec.api_key_secret cr.spec.api_key
      ∷ append
          (env_if K (skips_only cr.spec.agents_only || skips_tls tls) "INSECURE_SKIP_VERIFY" "true")
          (env_if K (is_some (ca_secret_of tls)) "CA_FILE" "/etc/telemetry-ca/ca.crt")

  unfoldable pub cluster_agent_env : Telemetry K → List (EnvVar K)
  unfolding service_url env_var_from_secret
  cluster_agent_env cr =
      env_value K "TELEMETRY_URL" (agent_url (λ u. u) (service_url cr) cr.spec.agents_only)
      ∷ env_value K "METRICS_SCRAPE_INTERVAL" (or_text cr.spec.metrics_refresh_interval "15s")
      ∷ env_value K "KUBE_STATE_METRICS_ADDRESS" "127.0.0.1:10302"
      ∷ append (access_env cr cr.spec.cluster_agent.tls) cr.spec.cluster_agent.env

  -- v == nil || *v
  abbrev unless_false : Option Bool → Bool
  unless_false none = true
  unless_false (some b) = b

  abbrev tracer_env : String → NodeAgentSpec K → List (EnvVar K)
  tracer_env url spec =
      if unless_false spec.ebpf_tracer.enabled
      then env_value K "TRACES_ENDPOINT" (url ++ "/v1/traces")
        ∷ env_if K (not (spec.ebpf_tracer.sampling == "")) "TRACES_SAMPLING"
            spec.ebpf_tracer.sampling
      else []

  abbrev networks_env : List String → List (EnvVar K)
  networks_env [] = []
  networks_env (n ∷ networks) = env_value K "TRACK_PUBLIC_NETWORK" (join "\n" (n ∷ networks)) ∷ []

  -- The endpoints and switches, for the server's URL.
  abbrev endpoints_env : String → NodeAgentSpec K → List (EnvVar K)
  endpoints_env url spec =
      env_value K "METRICS_ENDPOINT" (url ++ "/v1/metrics")
      ∷ append
          (env_if K (not (unless_false spec.log_collector.collect_log_based_metrics))
            "DISABLE_LOG_PARSING" "true")
          (append
            (env_if K (unless_false spec.log_collector.collect_log_entries) "LOGS_ENDPOINT"
              (url ++ "/v1/logs"))
            (append (tracer_env url spec) (
              append
                (env_if K (unless_false spec.ebpf_profiler.enabled) "PROFILES_ENDPOINT"
                  (url ++ "/v1/profiles"))
                (networks_env spec.track_public_networks))))

  unfoldable pub node_agent_env : Telemetry K → List (EnvVar K)
  unfolding service_url env_var_from_secret trim_slashes
  node_agent_env cr =
      env_value K "SCRAPE_INTERVAL" (or_text cr.spec.metrics_refresh_interval "15s")
      ∷ append (access_env cr cr.spec.node_agent.tls) (
          append
            (endpoints_env (agent_url trim_slashes (service_url cr) cr.spec.agents_only)
              cr.spec.node_agent)
            cr.spec.node_agent.env)

  abbrev or_list : ResourceList K → String → String → ResourceList K
  or_list none cpu memory =
      some (("cpu", K.parse_quantity cpu) ∷ ("memory", K.parse_quantity memory) ∷ [])
  or_list (some l) cpu memory = some l

  abbrev pub node_agent_resources : ResourceRequirements K → ResourceRequirements K
  node_agent_resources r = record r {
    requests = or_list r.requests "100m" "200Mi";
    limits = or_list r.limits "500m" "1Gi";
  }

  abbrev pub node_agent_tolerations : List K.Toleration → List K.Toleration
  node_agent_tolerations [] = K.tolerate_all ∷ []
  node_agent_tolerations (t ∷ tolerations) = t ∷ tolerations
