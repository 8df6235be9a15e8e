-- ===== src/Validate/Granted.antt =====
-- After validateTelemetry, single sign-on is enabled only with a complete section, and an AI provider
-- is named only with the key that it needs.
use text.Mathlib.TextLemmas.{append-eq-nil_iff}
use telemetry_operator.Base.{
  String, ◌≡◌, ◌≢◌, refl, ◌⊎◌, inl, inr, Bool, true, false, not, ◌&&◌, Option, none, some, arith,
  ◌==◌, eq_iff, Bool-cases, if_intro,
}
use telemetry_operator.Kube.{Kube, SecretKeySelector}
use telemetry_operator.Api.Access.{SsoSamlSpec, SsoOidcSpec, SsoSpec}
use telemetry_operator.ConfigEnvs.{reference}
use telemetry_operator.Cluster.{Server, Result, ok, err}
use telemetry_operator.Validate.Context.{Context, Step, log_err}
use telemetry_operator.Base.Predicates.{unless, IfSome-map, IfSome, Has, present}
use telemetry_operator.Validate.Secrets.{resolve, add_env}
use telemetry_operator.Validate.Access.{
  validate_oidc, saml_metadata, use_metadata, check_metadata, validate_saml, finish_oidc,
  finish_saml, validate_provider, validate_sso,
}

abbrev pub OidcReady : SsoOidcSpec → Type 0
OidcReady o =
    (o.issuer_url ≢ "")
    × (o.client_id ≢ "")
    × (o.client_secret ≢ "")
    × (o.client_secret_secret ≡ none)

abbrev pub SamlReady : SsoSamlSpec → Type 0
SamlReady s = (s.metadata ≢ "") × (s.metadata_secret ≡ none)

-- Single sign-on is disabled, or names the provider whose section is complete; OIDC is preferred.
abbrev pub SsoReady : SsoSpec → Type 0
SsoReady s =
    (s.enabled ≡ false)
    ⊎ (((s.provider ≡ "oidc") × Has OidcReady s.oidc)
        ⊎ ((s.provider ≡ "saml") × (s.oidc ≡ none) × Has SamlReady s.saml))

abbrev EnabledReady : SsoSpec → Type 0
EnabledReady s =
    s.enabled ≡ true
    → ((s.provider ≡ "oidc") × Has OidcReady s.oidc)
      ⊎ ((s.provider ≡ "saml") × (s.oidc ≡ none) × Has SamlReady s.saml)

reference-ne-nil : (s : SecretKeySelector) → reference s ≢ ""
unfolding reference
reference-ne-nil s e = ground (arith, eq_iff "${" "", append-eq-nil_iff.0 e)

three : (a b c : Bool) → (a && b && c) ≡ true → (a ≡ true) × (b ≡ true) × (c ≡ true)
three a b c h = ground arith

module _ {K : Kube} (server : Server K) (namespace : String) where
  validate_oidc-Ready :
      (o : SsoOidcSpec) (c : Context K)
      → (validate_oidc server namespace o c).0.1 ≡ true
      → OidcReady (validate_oidc server namespace o c).0.0
  unfolding validate_oidc
  validate_oidc-Ready o c =
      let given =
        resolve server namespace "Failed to get OIDC Client Secret: " "" o.client_secret
          o.client_secret_secret c in
      elim (Bool-cases
        (not (o.issuer_url == "") && not (o.client_id == "") && not (given.0 == ""))) [
          | inl complete ↦
              let (url, id, secret) = three _ _ _ complete in
              rw complete (λ _.
                (present o.issuer_url url, present o.client_id id, present given.0 secret, refl))
          | inr missing ↦ rw missing (λ h. cc)
        ]

  use_metadata-ne-nil :
      (m : String) (s : SecretKeySelector) (r : Result String) (c : Context K)
      → (use_metadata server namespace m s r c).0.1 ≢ ""
      → (use_metadata server namespace m s r c).0.0 ≢ ""
  unfolding add_env log_err
  use_metadata-ne-nil m s (err e) c h = absurd (h refl)
  use_metadata-ne-nil m s (ok text) c h = reference-ne-nil s

  saml_metadata-ne-nil :
      (m : String) (s : Option SecretKeySelector) (c : Context K)
      → (saml_metadata server namespace m s c).0.1 ≢ ""
      → (saml_metadata server namespace m s c).0.0 ≢ ""
  unfolding saml_metadata
  saml_metadata-ne-nil m none c h = h
  saml_metadata-ne-nil m (some s) c h = use_metadata-ne-nil m s _ _ h

  check_metadata-Ready :
      (s : SsoSamlSpec) (e : Option String) (c : Context K)
      → SamlReady s
      → (check_metadata server namespace s e c).0.1 ≡ true
      → SamlReady (check_metadata server namespace s e c).0.0
  unfolding log_err
  check_metadata-Ready s none c ready h = ready
  check_metadata-Ready s (some e) c ready h = cc

  validate_saml-Ready :
      (s : SsoSamlSpec) (c : Context K)
      → (validate_saml server namespace s c).0.1 ≡ true
      → SamlReady (validate_saml server namespace s c).0.0
  unfolding validate_saml
  validate_saml-Ready s c =
      let texts = (saml_metadata server namespace s.metadata s.metadata_secret c).0 in
      elim (Bool-cases (texts.1 == "")) [
        | inl empty ↦ rw empty (λ h. cc)
        | inr given ↦ rw given (
            check_metadata-Ready _ _ _ (
              saml_metadata-ne-nil s.metadata s.metadata_secret c (present texts.1 (rw given refl)),
              refl,
            ))
      ]

  finish_oidc-Ready :
      (s : SsoSpec) (r : SsoOidcSpec × Bool)
      → (r.1 ≡ true → OidcReady r.0)
      → EnabledReady (finish_oidc server namespace s r)
  finish_oidc-Ready s (o, true) h _ = inl (refl, h refl)
  finish_oidc-Ready s (o, false) h e = cc

  finish_saml-Ready :
      (s : SsoSpec) (r : SsoSamlSpec × Bool)
      → s.oidc ≡ none
      → (r.1 ≡ true → SamlReady r.0)
      → EnabledReady (finish_saml server namespace s r)
  finish_saml-Ready s (m, true) e h _ = inr (refl, e, h refl)
  finish_saml-Ready s (m, false) e h d = cc

  validate_provider-Ready :
      (s : SsoSpec) (o : Option SsoOidcSpec) (m : Option SsoSamlSpec) (c : Context K)
      → s.oidc ≡ o
      → EnabledReady (validate_provider server namespace s o m c).0
  unfolding validate_provider log_err
  validate_provider-Ready s (some o) m c e = finish_oidc-Ready s _ (validate_oidc-Ready o c)
  validate_provider-Ready s none (some m) c e = finish_saml-Ready s _ e (validate_saml-Ready m c)
  validate_provider-Ready s none none c e = λ d. cc

  validate_sso-EnabledReady :
      (s : Option SsoSpec) (c : Context K)
      → IfSome EnabledReady (validate_sso server namespace s c).0
  unfolding validate_sso
  validate_sso-EnabledReady none c = tt
  validate_sso-EnabledReady (some s) c =
      if_intro {A = Step K (Option SsoSpec)} (λ m. IfSome EnabledReady (m c).0) s.enabled _ _
        (λ on. validate_provider-Ready s s.oidc s.saml c refl) (λ off e. cc)

  pub validate_sso-Ready :
      (s : Option SsoSpec) (c : Context K) → IfSome SsoReady (validate_sso server namespace s c).0
  validate_sso-Ready s c =
      IfSome-map (validate_sso server namespace s c).0 (λ t h. unless t.enabled h)
        (validate_sso-EnabledReady s c)
