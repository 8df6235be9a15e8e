-- ===== src/Validate/Frame.antt =====
-- What validateTelemetry leaves as it is.
use telemetry_operator.Base.{
  ℤ, pos, negsuc, ◌≡◌, refl, ◌⊎◌, inl, inr, Bool, true, false, Option, none, is_some, arith,
}
use telemetry_operator.Kube.{Kube}
use telemetry_operator.Api.Telemetry.{TlsSpec, Telemetry}
use telemetry_operator.ConfigEnvs.{ConfigEnvs}
use telemetry_operator.Cluster.{Server, History}
use telemetry_operator.Validate.Context.{Context, returned}
use telemetry_operator.Validate.Spec.{
  validate_replicas, validate_defaults, validate_rest, validate_telemetry, initial_context,
}
use telemetry_operator.Validate.Returns.{has_selectors, validate_spec_inv}
use telemetry_operator.Validate.Validated.{route, with_spec_inv}

-- z < 0
abbrev pub is_negative : ℤ → Bool
is_negative (pos n) = false
is_negative (negsuc n) = true

module _ {K : Kube} (server : Server K) where
  -- The resource that validateTelemetry returns differs from the one it was given at most in its
  -- replicas, service, TLS section, administrator's password, projects, single sign-on, AI section
  -- and the S3 section of Clickhouse: its name, its namespace, its status and all other fields are
  -- the same.
  pub validate_telemetry-frame :
      (cr cr' : Telemetry K) (envs : ConfigEnvs) (history : History K)
      → (validate_telemetry server cr envs history).0 ≡ returned cr'
      → cr' ≡ record cr {
        spec = record cr.spec {
          replicas = cr'.spec.replicas;
          service = cr'.spec.service;
          tls = cr'.spec.tls;
          auth_bootstrap_admin_password = cr'.spec.auth_bootstrap_admin_password;
          auth_bootstrap_admin_password_secret = cr'.spec.auth_bootstrap_admin_password_secret;
          projects = cr'.spec.projects;
          sso = cr'.spec.sso;
          ai = cr'.spec.ai;
          clickhouse = record cr.spec.clickhouse { s3 = cr'.spec.clickhouse.s3 };
        };
      }
  unfolding validate_telemetry validate_defaults validate_rest
  validate_telemetry-frame cr cr' envs history e =
      let (spec, same, whole) = with_spec_inv server cr _ e in
      let r = validate_spec_inv server cr.namespace cr.spec (initial_context envs history) same in
      rw (whole, r.rest) refl

  validate_replicas-negative :
      (z : ℤ) (has_postgres : Bool) (c : Context K)
      → is_negative (validate_replicas z has_postgres c).0 ≡ is_negative z
  unfolding validate_replicas
  validate_replicas-negative z has_postgres c = ground arith

  -- Whether the number of replicas is negative does not change.
  pub validate_telemetry-negative :
      (cr cr' : Telemetry K) (envs : ConfigEnvs) (history : History K)
      → (validate_telemetry server cr envs history).0 ≡ returned cr'
      → is_negative cr'.spec.replicas ≡ is_negative cr.spec.replicas
  unfolding validate_defaults validate_rest
  validate_telemetry-negative cr cr' envs history e =
      let r = route server cr cr' envs history e in
      rw r.rest (validate_replicas-negative cr.spec.replicas (is_some cr.spec.postgres) _)

  selectors_kept :
      (t' t : Option TlsSpec)
      → (t' ≡ none) ⊎ (t' ≡ t)
      → has_selectors t ≡ true
      → has_selectors t' ≡ true
  selectors_kept t' t (inl gone) h = rw gone refl
  selectors_kept t' t (inr same) h = rw same h

  -- If the TLS section named both secrets, what is kept of it does.
  pub validate_telemetry-selectors :
      (cr cr' : Telemetry K) (envs : ConfigEnvs) (history : History K)
      → has_selectors cr.spec.tls ≡ true
      → (validate_telemetry server cr envs history).0 ≡ returned cr'
      → has_selectors cr'.spec.tls ≡ true
  unfolding validate_defaults validate_rest
  validate_telemetry-selectors cr cr' envs history h e =
      let r = route server cr cr' envs history e in
      rw r.rest (selectors_kept r.tls cr.spec.tls r.kept h)
