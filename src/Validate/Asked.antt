-- ===== src/Validate/Asked.antt =====
-- The requests of validateTelemetry as a whole.
use telemetry_operator.Base.{
  String, Bool, true, false, not, ◌&&◌, Option, none, some, is_some, ◌==◌, if◌then◌else◌,
}
use telemetry_operator.Kube.{Kube, SecretKeySelector}
use telemetry_operator.Api.Access.{SsoSamlSpec, SsoOidcSpec, SsoSpec, AiSpec}
use telemetry_operator.Api.Stores.{ClickhouseS3Spec}
use telemetry_operator.Api.Telemetry.{TlsSpec, TelemetrySpec, Telemetry}
use telemetry_operator.ConfigEnvs.{ConfigEnvs}
use telemetry_operator.Cluster.{Server, History, Result, ok, err}
use telemetry_operator.Validate.Context.{Context, Step, Outcome, returned, panicked, log_err}
use telemetry_operator.Validate.Secrets.{get_secret, add_env, resolve}
use telemetry_operator.Validate.Access.{
  validate_oidc, use_metadata, saml_metadata, check_metadata, validate_saml, validate_provider,
  validate_sso, validate_anthropic, validate_open_ai, validate_open_ai_compatible, validate_ai,
}
use telemetry_operator.Validate.Spec.{
  above_one, validate_replicas, log_if, validate_s3, log_failure, check_secret, after_cert,
  validate_tls, keep_password, validate_admin_password, validate_defaults, create_secrets,
  validate_rest, after_tls, validate_spec, initial_context, validate_telemetry,
}
use telemetry_operator.Validate.Requests.{
  Closed, Keeps, get_secret_of-Keeps, resolve-Keeps, optional-Keeps, validate_projects-Keeps,
  secret_requests-Keeps,
}

module _ {K : Kube} (server : Server K) (namespace : String) {I : History K → Type 0}
    (closed : Closed K namespace I) where
  if-Keeps :
      {A : Type 0} (b : Bool) (m n : Step K A)
      → Keeps server namespace closed m
      → Keeps server namespace closed n
      → Keeps server namespace closed (if b then m else n)
  if-Keeps true m n f g = f
  if-Keeps false m n f g = g

  validate_oidc-Keeps :
      (o : SsoOidcSpec) → Keeps server namespace closed (validate_oidc server namespace o)
  unfolding validate_oidc log_err
  validate_oidc-Keeps o c i =
      let (client_secret, c1) =
        resolve server namespace "Failed to get OIDC Client Secret: " "" o.client_secret
          o.client_secret_secret c in
      if-Keeps (not (o.issuer_url == "") && not (o.client_id == "") && not (client_secret == "")) _
        _ (λ _ k. k) (λ _ k. k) c1
        (resolve-Keeps server namespace closed _ "" o.client_secret o.client_secret_secret c i)

  use_metadata-Keeps :
      (metadata : String) (s : SecretKeySelector) (r : Result String)
      → Keeps server namespace closed (use_metadata server namespace metadata s r)
  unfolding log_err add_env
  use_metadata-Keeps metadata s (ok _) c i = i
  use_metadata-Keeps metadata s (err e) c i = i

  saml_metadata-Keeps :
      (metadata : String) (s : Option SecretKeySelector)
      → Keeps server namespace closed (saml_metadata server namespace metadata s)
  unfolding saml_metadata get_secret
  saml_metadata-Keeps metadata none c i = i
  saml_metadata-Keeps metadata (some s) c i =
      use_metadata-Keeps metadata s _ _ (closed.get s.name c.history i)

  check_metadata-Keeps :
      (s : SsoSamlSpec) (o : Option String)
      → Keeps server namespace closed (check_metadata server namespace s o)
  unfolding log_err
  check_metadata-Keeps s none c i = i
  check_metadata-Keeps s (some e) c i = i

  validate_saml-Keeps :
      (s : SsoSamlSpec) → Keeps server namespace closed (validate_saml server namespace s)
  unfolding validate_saml
  validate_saml-Keeps s c i =
      let (texts, c1) = saml_metadata server namespace s.metadata s.metadata_secret c in
      if-Keeps (texts.1 == "") _ _ (λ _ k. k)
        (check_metadata-Keeps _ (server.metadata_error texts.1)) c1
        (saml_metadata-Keeps s.metadata s.metadata_secret c i)

  validate_provider-Keeps :
      (s : SsoSpec) (o : Option SsoOidcSpec) (m : Option SsoSamlSpec)
      → Keeps server namespace closed (validate_provider server namespace s o m)
  unfolding validate_provider log_err
  validate_provider-Keeps s (some o) m c i = validate_oidc-Keeps o c i
  validate_provider-Keeps s none (some m) c i = validate_saml-Keeps m c i
  validate_provider-Keeps s none none c i = i

  validate_sso-Keeps :
      (s : Option SsoSpec) → Keeps server namespace closed (validate_sso server namespace s)
  unfolding validate_sso
  validate_sso-Keeps none = λ c i. i
  validate_sso-Keeps (some s) =
      if-Keeps s.enabled _ _ (λ c i. validate_provider-Keeps s s.oidc s.saml c i) (λ _ i. i)

  validate_ai-Keeps :
      (a : Option AiSpec) → Keeps server namespace closed (validate_ai server namespace a)
  unfolding validate_ai validate_anthropic validate_open_ai validate_open_ai_compatible log_err
  validate_ai-Keeps none = λ c i. i
  validate_ai-Keeps (some a) =
      if-Keeps (a.provider == "") _ _ (λ _ i. i)
        (if-Keeps (a.provider == "anthropic") _ _
          (optional-Keeps server namespace closed (validate_anthropic server namespace) (λ _ i. i)
            (λ x. resolve-Keeps server namespace closed _ _ _ _) a.anthropic)
          (if-Keeps (a.provider == "openai") _ _
            (optional-Keeps server namespace closed (validate_open_ai server namespace) (λ _ i. i)
              (λ x. resolve-Keeps server namespace closed _ _ _ _) a.open_ai)
            (if-Keeps (a.provider == "openai_compatible") _ _
              (optional-Keeps server namespace closed (validate_open_ai_compatible server namespace)
                (λ _ i. i) (λ x. resolve-Keeps server namespace closed _ _ _ _)
                a.open_ai_compatible)
              (λ _ i. i))))

  log_if-Keeps : (b : Bool) (e : String) → Keeps server namespace closed (log_if b e)
  unfolding log_err
  log_if-Keeps true e c i = i
  log_if-Keeps false e c i = i

  validate_s3-Keeps :
      (q : K.Quantity) (s : Option (ClickhouseS3Spec K))
      → Keeps server namespace closed (validate_s3 q s)
  unfolding validate_s3
  validate_s3-Keeps q none c i = i
  validate_s3-Keeps q (some s) c i = log_if-Keeps _ _ c i

  validate_defaults-Keeps :
      (spec : TelemetrySpec K)
      → Keeps server namespace closed (validate_defaults server namespace spec)
  unfolding validate_defaults validate_replicas log_err
  validate_defaults-Keeps spec c i =
      validate_s3-Keeps spec.clickhouse.storage.size spec.clickhouse.s3 _ (
        if-Keeps (above_one spec.replicas && not (is_some spec.postgres)) _ _ (λ _ k. k) (λ _ k. k)
          c i)

  log_failure-Keeps :
      (prefix : String) (r : Outcome (Result String))
      → Keeps server namespace closed (log_failure server namespace prefix r)
  unfolding log_err
  log_failure-Keeps prefix panicked c i = i
  log_failure-Keeps prefix (returned (ok _)) c i = i
  log_failure-Keeps prefix (returned (err e)) c i = i

  check_secret-Keeps :
      (prefix : String) (s : Option SecretKeySelector)
      → Keeps server namespace closed (check_secret server namespace prefix s)
  unfolding check_secret
  check_secret-Keeps prefix s c i =
      log_failure-Keeps prefix _ _ (get_secret_of-Keeps server namespace closed s c i)

  after_cert-Keeps :
      (t : TlsSpec) (r : Outcome Bool)
      → Keeps server namespace closed (after_cert server namespace t r)
  after_cert-Keeps t panicked c i = i
  after_cert-Keeps t (returned b) c i = check_secret-Keeps _ t.key_secret c i

  validate_tls-Keeps :
      (t : Option TlsSpec) → Keeps server namespace closed (validate_tls server namespace t)
  unfolding validate_tls
  validate_tls-Keeps none c i = i
  validate_tls-Keeps (some t) c i = after_cert-Keeps t _ _ (check_secret-Keeps _ t.cert_secret c i)

  keep_password-Keeps :
      (password : String) (s : SecretKeySelector) (r : Result String)
      → Keeps server namespace closed (keep_password server namespace password s r)
  unfolding log_err
  keep_password-Keeps password s (ok _) c i = i
  keep_password-Keeps password s (err e) c i = i

  validate_admin_password-Keeps :
      (password : String) (s : Option SecretKeySelector)
      → Keeps server namespace closed (validate_admin_password server namespace password s)
  unfolding validate_admin_password get_secret
  validate_admin_password-Keeps password none c i = i
  validate_admin_password-Keeps password (some s) c i =
      keep_password-Keeps password s _ _ (closed.get s.name c.history i)

  validate_rest-Keeps :
      (spec : TelemetrySpec K) → Keeps server namespace closed (validate_rest server namespace spec)
  unfolding validate_rest create_secrets
  validate_rest-Keeps spec c i = validate_ai-Keeps spec.ai _ (
      validate_sso-Keeps spec.sso _ (
        secret_requests-Keeps server namespace closed _ _ (
          validate_projects-Keeps server namespace closed spec.projects _
            (validate_admin_password-Keeps _ spec.auth_bootstrap_admin_password_secret c i))))

  after_tls-Keeps :
      (spec : TelemetrySpec K) (t : Outcome (Option TlsSpec))
      → Keeps server namespace closed (after_tls server namespace spec t)
  after_tls-Keeps spec panicked c i = i
  after_tls-Keeps spec (returned t) c i = validate_rest-Keeps _ c i

-- A property of histories that the requests for secrets of the resource's namespace keep holds after
-- validateTelemetry, whether it returns or panics, if it held before.
pub validate_telemetry-Closed :
    {K : Kube} (server : Server K) (cr : Telemetry K) (envs : ConfigEnvs) (history : History K)
    (I : History K → Type 0)
    → Closed K cr.namespace I
    → I history
    → I (validate_telemetry server cr envs history).1.history
unfolding validate_telemetry validate_spec
validate_telemetry-Closed server cr envs history I closed i =
    let start : Context _ = initial_context envs history in
    let (spec, c) = validate_defaults server cr.namespace cr.spec start in
    let (tls, c') = validate_tls server cr.namespace spec.tls c in
    after_tls-Keeps server cr.namespace closed spec tls c' (
      validate_tls-Keeps server cr.namespace closed spec.tls c
        (validate_defaults-Keeps server cr.namespace closed cr.spec start i))
