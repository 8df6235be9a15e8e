-- ===== src/Validate/Returns.antt =====
-- When validateTelemetry returns, and by which path.
use telemetry_operator.Base.{
  String, ◌≡◌, refl, ◌∙◌, ◌⊎◌, inl, inr, Bool, true, false, ◌&&◌, Option, none, some, is_some, ap,
}
use telemetry_operator.Kube.{Kube, SecretKeySelector}
use telemetry_operator.Api.Telemetry.{TlsSpec, TelemetrySpec}
use telemetry_operator.Cluster.{Server, Result, ok, err}
use telemetry_operator.Validate.Context.{Context, Outcome, returned, panicked, log_err}
use telemetry_operator.Validate.Secrets.{get_secret_of}
use telemetry_operator.Validate.Spec.{
  log_failure, check_secret, keep_tls, after_cert, validate_tls, validate_defaults, validate_rest,
  after_tls, validate_spec,
}

-- The TLS section, if there is one, names both secrets, as the custom resource's schema requires.
abbrev pub has_selectors : Option TlsSpec → Bool
has_selectors none = true
has_selectors (some t) = is_some t.cert_secret && is_some t.key_secret

-- What a call returns is `a`, if it returns.
abbrev pub did_return {ℓ} : {A : Type ℓ} → Outcome A → Bool
did_return (returned a) = true
did_return panicked = false

module _ {K : Kube} (server : Server K) (namespace : String) where
  log_failure_returns :
      (prefix : String) (r : Outcome (Result String)) (c : Context K)
      → did_return (log_failure server namespace prefix r c).0 ≡ did_return r
  unfolding log_err
  log_failure_returns prefix panicked c = refl
  log_failure_returns prefix (returned (ok _)) c = refl
  log_failure_returns prefix (returned (err e)) c = refl

  check_secret_returns :
      (prefix : String) (s : Option SecretKeySelector) (c : Context K)
      → did_return (check_secret server namespace prefix s c).0 ≡ is_some s
  unfolding check_secret
  check_secret_returns prefix none c = refl
  check_secret_returns prefix (some s) c =
      let (r, c') = get_secret_of server namespace (some s) c in log_failure_returns prefix r c'

  keep_tls_returns :
      (t : TlsSpec) (b : Bool) (r : Outcome Bool)
      → did_return (keep_tls server namespace t b r) ≡ did_return r
  keep_tls_returns t b panicked = refl
  keep_tls_returns t b (returned k) = refl

  after_cert_returns :
      (t : TlsSpec) (r : Outcome Bool) (c : Context K)
      → did_return (after_cert server namespace t r c).0 ≡ did_return r && is_some t.key_secret
  after_cert_returns t panicked c = refl
  after_cert_returns t (returned b) c =
      let prefix : String = "Failed to get TLS Key: " in
      let (r, c') = check_secret server namespace prefix t.key_secret c in
      keep_tls_returns t b r ∙ check_secret_returns prefix t.key_secret c

  pub validate_tls_returns :
      (t : Option TlsSpec) (c : Context K)
      → did_return (validate_tls server namespace t c).0 ≡ has_selectors t
  unfolding validate_tls
  validate_tls_returns none c = refl
  validate_tls_returns (some t) c =
      let prefix : String = "Failed to get TLS Cert: " in
      let (r, c') = check_secret server namespace prefix t.cert_secret c in
      after_cert_returns t r c'
      ∙ ap (λ b. b && is_some t.key_secret) (check_secret_returns prefix t.cert_secret c)

  -- What is kept of the TLS section is the section itself.
  keep_tls_cases :
      (t : TlsSpec) (b : Bool) (r : Outcome Bool) {t' : Option TlsSpec}
      → keep_tls server namespace t b r ≡ returned t'
      → (t' ≡ none) ⊎ (t' ≡ some t)
  keep_tls_cases t b panicked e = cc
  keep_tls_cases t true (returned true) e = inr (cc)
  keep_tls_cases t true (returned false) e = inl (cc)
  keep_tls_cases t false (returned k) e = inl (cc)

  after_cert_cases :
      (t : TlsSpec) (r : Outcome Bool) (c : Context K) {t' : Option TlsSpec}
      → (after_cert server namespace t r c).0 ≡ returned t'
      → (t' ≡ none) ⊎ (t' ≡ some t)
  after_cert_cases t panicked c e = cc
  after_cert_cases t (returned b) c e =
      keep_tls_cases t b (check_secret server namespace "Failed to get TLS Key: " t.key_secret c).0
        e

  pub validate_tls_cases :
      (t : Option TlsSpec) (c : Context K) {t' : Option TlsSpec}
      → (validate_tls server namespace t c).0 ≡ returned t'
      → (t' ≡ none) ⊎ (t' ≡ t)
  unfolding validate_tls
  validate_tls_cases none c e = inl (cc)
  validate_tls_cases (some t) c e =
      let (r, c') = check_secret server namespace "Failed to get TLS Cert: " t.cert_secret c in
      after_cert_cases t r c' e

  -- How a returned specification came about.
  pub record Route (spec spec' : TelemetrySpec K) (c : Context K) : Type 0 where
    pub tls : Option TlsSpec
    pub before : Context K
    pub kept : (tls ≡ none) ⊎ (tls ≡ (validate_defaults server namespace spec c).0.tls)
    pub rest :
        spec'
        ≡ (validate_rest server namespace
            (record (validate_defaults server namespace spec c).0 { tls = tls })
            before).0

  after_tls_inv :
      (spec : TelemetrySpec K) (o : Outcome (Option TlsSpec)) (c : Context K)
      {spec' : TelemetrySpec K}
      → (after_tls server namespace spec o c).0 ≡ returned spec'
      → (t : Option TlsSpec) × (o ≡ returned t)
        × (spec' ≡ (validate_rest server namespace (record spec { tls = t }) c).0)
  after_tls_inv spec panicked c e = cc
  after_tls_inv spec (returned t) c e = (t, refl, cc)

  pub validate_spec_inv :
      (spec : TelemetrySpec K) (c : Context K) {spec' : TelemetrySpec K}
      → (validate_spec server namespace spec c).0 ≡ returned spec'
      → Route spec spec' c
  unfolding validate_spec
  validate_spec_inv spec c e =
      let (spec1, c1) = validate_defaults server namespace spec c in
      let (o, c2) = validate_tls server namespace spec1.tls c1 in
      let (t, same, rest) = after_tls_inv spec1 o c2 e in
      record { tls = t; before = c2; kept = validate_tls_cases spec1.tls c1 same; rest = rest }
