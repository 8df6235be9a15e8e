-- ===== src/Builders/Environment.antt =====
-- controller/telemetry.go: the environment variables of the telemetry server's container
-- (telemetryStatefulSet). A list for each Go map gives the order in which the loop ranges over it.
use Prim.Native.String.{◌++◌}
use telemetry_operator.Base.{
  ◌++◌ as append, String, not, ◌&&◌, ◌||◌, Option, none, some, List, [], ◌∷◌, is_zero_ℤ, is_some,
  ◌==◌, if◌then◌else◌, map,
}
use telemetry_operator.Base.Text.{join}
use telemetry_operator.Kube.{Kube, StringMap, EnvVar, secret_key_ref}
use telemetry_operator.Api.Common.{BasicAuthSpec}
use telemetry_operator.Api.Stores.{ExternalPrometheusSpec, ExternalClickhouseSpec, PostgresSpec}
use telemetry_operator.Api.Telemetry.{Telemetry, TelemetrySpec, IngressSpec}
use telemetry_operator.ConfigEnvs.{ConfigEnvs, list}
use telemetry_operator.Postgres.{connection_string}
use telemetry_operator.Builders.Stores.{clickhouse_password_secret}
use telemetry_operator.Builders.Pod.{env_value, env_var_from_secret, env_if, or_text}

-- cmp.Or(cr.Spec.HTTPSListen, ":8443")
abbrev pub https_listen_of : (K : Kube) → TelemetrySpec K → String
https_listen_of K spec = or_text spec.https_listen ":8443"

module _ (K : Kube) where
  abbrev basic_auth_env : Option BasicAuthSpec → List (EnvVar K)
  basic_auth_env none = []
  basic_auth_env (some a) =
      env_value K "GLOBAL_PROMETHEUS_USER" a.username
      ∷ env_var_from_secret K "GLOBAL_PROMETHEUS_PASSWORD" a.password_secret a.password
      ∷ []

  abbrev headers_env : StringMap → List (EnvVar K)
  headers_env [] = []
  headers_env (h ∷ headers) =
      env_value K "GLOBAL_PROMETHEUS_CUSTOM_HEADERS"
        (join "\n" (map (λ e. e.0 ++ "=" ++ e.1) (h ∷ headers)))
      ∷ []

  unfoldable pub prometheus_env : Telemetry K → Option ExternalPrometheusSpec → List (EnvVar K)
  unfolding env_var_from_secret
  prometheus_env cr (some ep) = append (env_value K "GLOBAL_PROMETHEUS_URL" ep.url ∷ []) (
      append (env_if K ep.tls_skip_verify "GLOBAL_PROMETHEUS_TLS_SKIP_VERIFY" "true") (
        append (headers_env ep.custom_headers) (
          append (basic_auth_env ep.basic_auth) (
            env_if K (not (ep.remote_write_url == "")) "GLOBAL_PROMETHEUS_REMOTE_WRITE_URL"
              ep.remote_write_url))))
  prometheus_env cr none =
      if cr.spec.store_metrics_in_clickhouse
      then env_value K "GLOBAL_PROMETHEUS_USE_CLICKHOUSE" "true" ∷ []
      else env_value K "GLOBAL_PROMETHEUS_URL"
          ("http://" ++ cr.name ++ "-prometheus." ++ cr.namespace ++ ":9090")
        ∷ []

  unfoldable pub clickhouse_env : Telemetry K → Option ExternalClickhouseSpec → List (EnvVar K)
  unfolding env_var_from_secret
  clickhouse_env cr (some ec) =
      env_value K "GLOBAL_CLICKHOUSE_ADDRESS" ec.address
      ∷ env_value K "GLOBAL_CLICKHOUSE_USER" ec.user
      ∷ env_value K "GLOBAL_CLICKHOUSE_INITIAL_DATABASE" ec.database
      ∷ env_var_from_secret K "GLOBAL_CLICKHOUSE_PASSWORD" ec.password_secret ec.password
      ∷ append (env_if K ec.tls_enabled "GLOBAL_CLICKHOUSE_TLS_ENABLED" "true") (
          env_if K (ec.tls_enabled && ec.tls_skip_verify) "GLOBAL_CLICKHOUSE_TLS_SKIP_VERIFY"
            "true")
  clickhouse_env cr none =
      env_value K "GLOBAL_CLICKHOUSE_ADDRESS" (cr.name ++ "-clickhouse." ++ cr.namespace ++ ":9000")
      ∷ env_value K "GLOBAL_CLICKHOUSE_USER" "default"
      ∷ record {
        name = "GLOBAL_CLICKHOUSE_PASSWORD";
        value = "";
        value_from = some (secret_key_ref (clickhouse_password_secret K cr));
      }
      ∷ env_value K "GLOBAL_CLICKHOUSE_INITIAL_DATABASE" "default"
      ∷ []

  unfoldable pub postgres_env : Option PostgresSpec → List (EnvVar K)
  unfolding env_var_from_secret connection_string
  postgres_env none = []
  postgres_env (some p) =
      env_var_from_secret K "PG_PASSWORD" p.password_secret p.password
      ∷ env_value K "PG_CONNECTION_STRING" (connection_string p "PG_PASSWORD")
      ∷ []

  abbrev path_env : Option IngressSpec → List (EnvVar K)
  path_env none = []
  path_env (some i) = env_if K (not (i.path == "")) "URL_BASE_PATH" i.path

  abbrev password_env : TelemetrySpec K → List (EnvVar K)
  password_env spec =
      if not (spec.auth_bootstrap_admin_password == "")
        || is_some spec.auth_bootstrap_admin_password_secret
      then env_var_from_secret K "AUTH_BOOTSTRAP_ADMIN_PASSWORD"
          spec.auth_bootstrap_admin_password_secret spec.auth_bootstrap_admin_password
        ∷ []
      else []

  abbrev ttl_env : String → String → List (EnvVar K)
  ttl_env name value = env_if K (not (value == "")) name value

  abbrev listen_env : TelemetrySpec K → List (EnvVar K)
  listen_env spec =
      env_value K "GLOBAL_REFRESH_INTERVAL" (or_text spec.metrics_refresh_interval "15s")
      ∷ env_value K "INSTALLATION_TYPE" "k8s-operator"
      ∷ (if spec.http_disabled
          then env_value K "HTTP_DISABLED" "true"
          else env_value K "LISTEN" ":8080")
      ∷ append
          (env_if K (not (is_zero_ℤ spec.service.https_port)) "HTTPS_LISTEN"
            (https_listen_of K spec))
          ((if spec.grpc.disabled
              then env_value K "GRPC_DISABLED" "true"
              else env_value K "GRPC_LISTEN" ":4317")
            ∷ [])

  -- The variables of the container, in their order.
  unfoldable pub server_env : Telemetry K → ConfigEnvs → List (EnvVar K)
  unfolding prometheus_env clickhouse_env postgres_env list env_var_from_secret
  server_env cr config_envs = append (listen_env cr.spec) (
      append (ttl_env "CACHE_TTL" cr.spec.cache_ttl) (
        append (ttl_env "TRACES_TTL" cr.spec.traces_ttl) (
          append (ttl_env "LOGS_TTL" cr.spec.logs_ttl) (
            append (ttl_env "PROFILES_TTL" cr.spec.profiles_ttl) (
              append (ttl_env "AUTH_ANONYMOUS_ROLE" cr.spec.auth_anonymous_role) (
                append (password_env cr.spec) (
                  append (prometheus_env cr cr.spec.external_prometheus) (
                    append (clickhouse_env cr cr.spec.external_clickhouse) (
                      append (postgres_env cr.spec.postgres) (
                        append (path_env cr.spec.ingress)
                          (append (list K config_envs) cr.spec.env)))))))))))
