-- ===== src/Validate/Spec.antt =====
-- controller/telemetry.go, validateTelemetry, lines 35 to 90, and the whole function.
use Prim.Native.String
use telemetry_operator.Base.{
  ℤ, pos, suc, is_zero_ℤ, String, Bool, true, false, not, ◌&&◌, ◌||◌, Option, none, some, [],
  is_some, if◌then◌else◌,
}
use telemetry_operator.Base.Text.{ends_with_slash}
use telemetry_operator.Kube.{Kube, SecretKeySelector, or_default}
use telemetry_operator.Api.Stores.{ClickhouseS3Spec}
use telemetry_operator.Api.Telemetry.{ServiceSpec, TlsSpec, TelemetrySpec, Telemetry}
use telemetry_operator.Cluster.{Server, History, Result, ok, err}
use telemetry_operator.ConfigEnvs.{ConfigEnvs}
use telemetry_operator.Validate.Context.{
  Context, Step, Outcome, returned, panicked, pure, ◌>>=◌, ◌>>◌, log_err,
}
use telemetry_operator.Validate.Secrets.{get_secret, get_secret_of}
use telemetry_operator.Validate.Projects.{validate_projects, secret_requests}
use telemetry_operator.Validate.Access.{validate_sso, validate_ai}

-- z > 1
abbrev pub above_one : ℤ → Bool
above_one (pos (suc (suc n))) = true
above_one _ = false

-- The number of replicas; only Postgres allows several.
unfoldable pub validate_replicas : {K : Kube} → ℤ → Bool → Step K ℤ
unfolding log_err
validate_replicas replicas has_postgres =
    if above_one replicas && not has_postgres
    then (do
      log_err "Telemetry requires Postgres to run multiple replicas. Falling back to 1 replica."
      pure (pos 1))
    else pure replicas

-- The ports of the service, from whether gRPC is disabled and whether HTTPS is needed.
unfoldable pub default_ports : Bool → Bool → ServiceSpec → ServiceSpec
default_ports grpc_disabled needs_https s = record s {
  port = if is_zero_ℤ s.port then pos 8080 else s.port;
  grpc_port = if not grpc_disabled && is_zero_ℤ s.grpc_port then pos 4317 else s.grpc_port;
  https_port = if needs_https && is_zero_ℤ s.https_port then pos 8443 else s.https_port;
}

module _ {K : Kube} where
  abbrev pub log_if : Bool → String → Step K (Unit {0})
  log_if b e = if b then log_err e else pure tt

  unfoldable pub validate_s3 :
      K.Quantity → Option (ClickhouseS3Spec K) → Step K (Option (ClickhouseS3Spec K))
  unfolding or_default log_err
  validate_s3 storage none = pure none
  validate_s3 storage (some s3) =
      let storage_size = or_default K storage "100Gi" in
      let cache_size = or_default K s3.cache_size "10Gi" in
      let endpoint =
        if ends_with_slash s3.endpoint then s3.endpoint else String.◌++◌ s3.endpoint "/" in
      let too_large = String.◌++◌ "ClickHouse S3 cache size (" (
        String.◌++◌ (K.quantity_string cache_size) (
          String.◌++◌ ") must be less than storage size ("
            (String.◌++◌ (K.quantity_string storage_size) ")."))) in
      do
        log_if (K.cmp_ge cache_size storage_size) too_large
        pure (some (record s3 { endpoint = endpoint }))

module _ {K : Kube} (server : Server K) (namespace : String) where
  -- Whether a secret of the TLS section can be read; the error is logged behind `prefix`.
  abbrev pub log_failure : String → Outcome (Result String) → Step K (Outcome Bool)
  log_failure prefix panicked = pure panicked
  log_failure prefix (returned (ok _)) = pure (returned true)
  log_failure prefix (returned (err e)) = do
    log_err (String.◌++◌ prefix (String.◌++◌ e "."))
    pure (returned false)

  unfoldable pub check_secret : String → Option SecretKeySelector → Step K (Outcome Bool)
  unfolding get_secret_of log_err
  check_secret prefix selector = do
    r ← get_secret_of server namespace selector
    log_failure prefix r

  abbrev pub keep_tls : TlsSpec → Bool → Outcome Bool → Outcome (Option TlsSpec)
  keep_tls tls cert_ok panicked = panicked
  keep_tls tls cert_ok (returned key_ok) = returned (if cert_ok && key_ok then some tls else none)

  abbrev pub after_cert : TlsSpec → Outcome Bool → Step K (Outcome (Option TlsSpec))
  after_cert tls panicked = pure panicked
  after_cert tls (returned cert_ok) = do
    r ← check_secret "Failed to get TLS Key: " tls.key_secret
    pure (keep_tls tls cert_ok r)

  unfoldable pub validate_tls : Option TlsSpec → Step K (Outcome (Option TlsSpec))
  unfolding check_secret
  validate_tls none = pure (returned none)
  validate_tls (some tls) = do
    r ← check_secret "Failed to get TLS Cert: " tls.cert_secret
    after_cert tls r

  abbrev pub keep_password :
      String → SecretKeySelector → Result String → Step K (String × Option SecretKeySelector)
  keep_password password selector (ok _) = pure (password, some selector)
  keep_password password selector (err e) = do
    log_err (String.◌++◌ "Failed to get Admin Password: " (String.◌++◌ e "."))
    pure ("", none)

  -- The plain-text password and the pointer to its secret.
  unfoldable pub validate_admin_password :
      String → Option SecretKeySelector → Step K (String × Option SecretKeySelector)
  unfolding get_secret log_err
  validate_admin_password password none = pure (password, none)
  validate_admin_password password (some selector) = do
    r ← get_secret server namespace selector
    keep_password password selector r

  -- Lines 35 to 65.
  unfoldable pub validate_defaults : TelemetrySpec K → Step K (TelemetrySpec K)
  validate_defaults spec = do
    replicas ← validate_replicas spec.replicas (is_some spec.postgres)
    let service =
        default_ports spec.grpc.disabled (is_some spec.tls || spec.http_disabled) spec.service
    s3 ← validate_s3 spec.clickhouse.storage.size spec.clickhouse.s3
    pure (record spec {
      replicas = replicas;
      service = service;
      clickhouse = record spec.clickhouse { s3 = s3 };
    })

  -- Lines 196 to 198: the map is ranged over in the order that `range_order` gives.
  unfoldable pub create_secrets : Step K (Unit {0})
  create_secrets c = secret_requests namespace (server.range_order c.api_key_secrets) c

  -- Lines 84 to 300, after the TLS section.
  unfoldable pub validate_rest : TelemetrySpec K → Step K (TelemetrySpec K)
  validate_rest spec = do
    admin ←
        validate_admin_password spec.auth_bootstrap_admin_password
          spec.auth_bootstrap_admin_password_secret
    projects ← validate_projects server namespace spec.projects
    create_secrets
    sso ← validate_sso server namespace spec.sso
    ai ← validate_ai server namespace spec.ai
    pure (record spec {
      auth_bootstrap_admin_password = admin.0;
      auth_bootstrap_admin_password_secret = admin.1;
      projects = projects;
      sso = sso;
      ai = ai;
    })

  abbrev pub after_tls :
      TelemetrySpec K → Outcome (Option TlsSpec) → Step K (Outcome (TelemetrySpec K))
  after_tls spec panicked = pure panicked
  after_tls spec (returned tls) = do
    spec' ← validate_rest (record spec { tls = tls })
    pure (returned spec')

  unfoldable pub validate_spec : TelemetrySpec K → Step K (Outcome (TelemetrySpec K))
  unfolding validate_defaults validate_rest
  validate_spec spec = do
    spec' ← validate_defaults spec
    tls ← validate_tls spec'.tls
    after_tls spec' tls

module _ {K : Kube} where
  abbrev pub initial_context : ConfigEnvs → History K → Context K
  initial_context envs history = record {
    config_envs = envs;
    errors = [];
    api_key_secrets = [];
    history = history;
  }

  abbrev pub with_spec : Telemetry K → Outcome (TelemetrySpec K) → Outcome (Telemetry K)
  with_spec cr panicked = panicked
  with_spec cr (returned spec) = returned (record cr { spec = spec })

  -- validateTelemetry: the changed custom resource; the errors are in the final context.
  unfoldable pub validate_telemetry :
      Server K → Telemetry K → ConfigEnvs → History K → Outcome (Telemetry K) × Context K
  unfolding validate_spec
  validate_telemetry server cr envs history =
      let (r, c) = validate_spec server cr.namespace cr.spec (initial_context envs history) in
      (with_spec cr r, c)
