-- ===== src/Validate/Validated.antt =====
-- What validateTelemetry establishes of the custom resource that it leaves.
use Prim.Native.String.{◌++◌}
use telemetry_operator.Base.{
  ℤ, pos, is_zero_ℤ, String, ◌≡◌, refl, ◌⊎◌, inl, inr, Bool, true, false, not, ◌&&◌, ◌||◌, Option,
  none, some, is_some, arith, if◌then◌else◌, ◌∙◌, if_intro,
}
use telemetry_operator.Base.Predicates.{IfSome, All}
use telemetry_operator.Base.Text.{ends_with_slash, ends_with_slash-append}
use telemetry_operator.Kube.{Kube}
use telemetry_operator.Api.Stores.{ClickhouseS3Spec}
use telemetry_operator.Api.Telemetry.{TlsSpec, TelemetrySpec, Telemetry}
use telemetry_operator.ConfigEnvs.{ConfigEnvs}
use telemetry_operator.Cluster.{Server, History}
use telemetry_operator.Validate.Context.{Context, Outcome, returned, panicked}
use telemetry_operator.Validate.Spec.{
  above_one, validate_replicas, default_ports, validate_s3, validate_defaults, validate_tls,
  validate_rest, after_tls, initial_context, with_spec, validate_telemetry,
}
use telemetry_operator.Validate.Resolved.{ProjectReady, validate_projects-Ready}
use telemetry_operator.Validate.Granted.{SsoReady, validate_sso-Ready}
use telemetry_operator.Validate.AiGranted.{AiReady, validate_ai-Ready}
use telemetry_operator.Validate.Returns.{
  has_selectors, did_return, validate_tls_returns, Route, validate_spec_inv,
}

-- The ports that the generated objects refer to are set.
pub record PortsReady {K : Kube} (spec : TelemetrySpec K) : Type 0 where
  pub http : is_zero_ℤ spec.service.port ≡ false
  pub grpc : (spec.grpc.disabled || not (is_zero_ℤ spec.service.grpc_port)) ≡ true
  pub https :
      (not (is_some spec.tls || spec.http_disabled) || not (is_zero_ℤ spec.service.https_port))
      ≡ true

default_http : (p : ℤ) → is_zero_ℤ (if is_zero_ℤ p then pos 8080 else p) ≡ false
default_http p = ground arith

default_grpc :
    (d : Bool) (p : ℤ)
    → (d || not (is_zero_ℤ (if not d && is_zero_ℤ p then pos 4317 else p))) ≡ true
default_grpc d p = ground arith

-- The test for TLS before the secrets are looked up is at least as wide as the one after.
default_https :
    {A : Type 0} (t' t : Option A) (b : Bool) (p : ℤ)
    → (t' ≡ none) ⊎ (t' ≡ t)
    → (not (is_some t' || b)
        || not (is_zero_ℤ (if (is_some t || b) && is_zero_ℤ p then pos 8443 else p)))
      ≡ true
default_https t' t b p (inl gone) = ground arith
default_https t' t b p (inr kept) = rw kept (ground arith)

slashed : (e : String) → ends_with_slash (if ends_with_slash e then e else e ++ "/") ≡ true
slashed e =
    if_intro (λ t. ends_with_slash t ≡ true) (ends_with_slash e) e (e ++ "/") (λ h. h)
      (λ _. ends_with_slash-append e)

module _ {K : Kube} (server : Server K) where
  pub with_spec_inv :
      (cr : Telemetry K) (o : Outcome (TelemetrySpec K)) {cr' : Telemetry K}
      → with_spec cr o ≡ returned cr'
      → (spec : TelemetrySpec K) × (o ≡ returned spec) × (cr' ≡ record cr { spec = spec })
  with_spec_inv cr panicked e = cc
  with_spec_inv cr (returned spec) e = (spec, refl, cc)

  -- The route to the custom resource that a call returned.
  pub route :
      (cr cr' : Telemetry K) (envs : ConfigEnvs) (history : History K)
      → (validate_telemetry server cr envs history).0 ≡ returned cr'
      → Route server cr.namespace cr.spec cr'.spec (initial_context envs history)
  unfolding validate_telemetry
  route cr cr' envs history e =
      let (spec, same, whole) = with_spec_inv cr _ e in
      rw whole (validate_spec_inv server cr.namespace cr.spec (initial_context envs history) same)

  did_return-with_spec :
      (cr : Telemetry K) (o : Outcome (TelemetrySpec K))
      → did_return (with_spec cr o) ≡ did_return o
  did_return-with_spec cr panicked = refl
  did_return-with_spec cr (returned spec) = refl

  did_return-after_tls :
      (namespace : String) (spec : TelemetrySpec K) (o : Outcome (Option TlsSpec)) (c : Context K)
      → did_return (after_tls server namespace spec o c).0 ≡ did_return o
  did_return-after_tls namespace spec panicked c = refl
  did_return-after_tls namespace spec (returned t) c = refl

  -- validateTelemetry returns exactly when the TLS section, if there is one, names both of its
  -- secrets (as the schema requires); otherwise it panics.
  pub did_return-validate_telemetry :
      (cr : Telemetry K) (envs : ConfigEnvs) (history : History K)
      → did_return (validate_telemetry server cr envs history).0 ≡ has_selectors cr.spec.tls
  unfolding validate_telemetry validate_defaults
  did_return-validate_telemetry cr envs history =
      let (spec1, c1) =
        validate_defaults server cr.namespace cr.spec (initial_context envs history) in
      let (o, c2) = validate_tls server cr.namespace spec1.tls c1 in
      did_return-with_spec cr _
      ∙ did_return-after_tls cr.namespace spec1 o c2
      ∙ validate_tls_returns server cr.namespace spec1.tls c1

  -- After validateTelemetry the HTTP port of the service is set, the gRPC port unless gRPC is
  -- disabled, and the HTTPS port where TLS is kept or plain HTTP is disabled.
  pub validate_telemetry-PortsReady :
      (cr cr' : Telemetry K) (envs : ConfigEnvs) (history : History K)
      → (validate_telemetry server cr envs history).0 ≡ returned cr'
      → PortsReady cr'.spec
  unfolding validate_defaults validate_rest default_ports
  validate_telemetry-PortsReady cr cr' envs history e =
      let r = route cr cr' envs history e in
      rw r.rest (record {
        http = default_http cr.spec.service.port;
        grpc = default_grpc cr.spec.grpc.disabled cr.spec.service.grpc_port;
        https =
            default_https r.tls cr.spec.tls cr.spec.http_disabled cr.spec.service.https_port r.kept;
      })

  -- After validateTelemetry, every project's integrations and remote instance that are kept have
  -- their credentials, and no pointer to a secret is left in any project.
  pub validate_telemetry-ProjectReady :
      (cr cr' : Telemetry K) (envs : ConfigEnvs) (history : History K)
      → (validate_telemetry server cr envs history).0 ≡ returned cr'
      → All ProjectReady cr'.spec.projects
  unfolding validate_defaults validate_rest
  validate_telemetry-ProjectReady cr cr' envs history e =
      let r = route cr cr' envs history e in
      rw r.rest (validate_projects-Ready server cr.namespace cr.spec.projects _)

  -- After validateTelemetry, single sign-on is enabled only with the provider "oidc" and a complete
  -- OIDC section, or with the provider "saml", no OIDC section and metadata in the SAML section.
  pub validate_telemetry-SsoReady :
      (cr cr' : Telemetry K) (envs : ConfigEnvs) (history : History K)
      → (validate_telemetry server cr envs history).0 ≡ returned cr'
      → IfSome SsoReady cr'.spec.sso
  unfolding validate_defaults validate_rest
  validate_telemetry-SsoReady cr cr' envs history e =
      let r = route cr cr' envs history e in
      rw r.rest (validate_sso-Ready server cr.namespace cr.spec.sso _)

  -- After validateTelemetry, the AI section names no provider, or one of the three known ones whose
  -- section is there with an API key.
  pub validate_telemetry-AiReady :
      (cr cr' : Telemetry K) (envs : ConfigEnvs) (history : History K)
      → (validate_telemetry server cr envs history).0 ≡ returned cr'
      → IfSome AiReady cr'.spec.ai
  unfolding validate_defaults validate_rest
  validate_telemetry-AiReady cr cr' envs history e =
      let r = route cr cr' envs history e in
      rw r.rest (validate_ai-Ready server cr.namespace cr.spec.ai _)

  validate_replicas-le :
      (z : ℤ) (has_postgres : Bool) (c : Context K)
      → (not (above_one (validate_replicas z has_postgres c).0) || has_postgres) ≡ true
  unfolding validate_replicas
  validate_replicas-le z has_postgres c = ground arith

  -- After validateTelemetry there is at most one replica, or Postgres is there.
  pub validate_telemetry-replicas :
      (cr cr' : Telemetry K) (envs : ConfigEnvs) (history : History K)
      → (validate_telemetry server cr envs history).0 ≡ returned cr'
      → (not (above_one cr'.spec.replicas) || is_some cr'.spec.postgres) ≡ true
  unfolding validate_defaults validate_rest
  validate_telemetry-replicas cr cr' envs history e =
      let r = route cr cr' envs history e in
      rw r.rest (validate_replicas-le cr.spec.replicas (is_some cr.spec.postgres) _)

  validate_s3-endpoint :
      (q : K.Quantity) (s : Option (ClickhouseS3Spec K)) (c : Context K)
      → IfSome (λ x. ends_with_slash x.endpoint ≡ true) (validate_s3 q s c).0
  unfolding validate_s3
  validate_s3-endpoint q none c = tt
  validate_s3-endpoint q (some s) c = slashed s.endpoint

  -- After validateTelemetry the endpoint of the S3 storage ends with a slash, so that the shard and
  -- the replica can be appended to it.
  pub validate_telemetry-endpoint :
      (cr cr' : Telemetry K) (envs : ConfigEnvs) (history : History K)
      → (validate_telemetry server cr envs history).0 ≡ returned cr'
      → IfSome (λ s. ends_with_slash s.endpoint ≡ true) cr'.spec.clickhouse.s3
  unfolding validate_defaults validate_rest
  validate_telemetry-endpoint cr cr' envs history e =
      let r = route cr cr' envs history e in
      rw r.rest (validate_s3-endpoint cr.spec.clickhouse.storage.size cr.spec.clickhouse.s3 _)
