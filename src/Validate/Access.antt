-- ===== src/Validate/Access.antt =====
-- controller/telemetry.go, lines 200 to 300: single sign-on and the AI provider.
use Prim.Native.String
use telemetry_operator.Base.{
  String, Bool, true, false, not, ◌&&◌, Option, none, some, ◌==◌, if◌then◌else◌,
}
use telemetry_operator.Kube.{Kube, SecretKeySelector}
use telemetry_operator.Api.Access.{
  SsoSamlSpec, SsoOidcSpec, SsoSpec, AnthropicSpec, OpenAiSpec, OpenAiCompatibleSpec, AiSpec,
}
use telemetry_operator.Cluster.{Server, Result, ok, err}
use telemetry_operator.Validate.Context.{Step, pure, ◌>>=◌, ◌>>◌, log_err}
use telemetry_operator.Validate.Secrets.{resolve, get_secret, add_env}

module _ {K : Kube} (server : Server K) (namespace : String) where
  -- The branch of OIDC: what becomes of the section, and whether it is valid.
  unfoldable pub validate_oidc : SsoOidcSpec → Step K (SsoOidcSpec × Bool)
  validate_oidc oidc = do
    client_secret ←
        resolve server namespace "Failed to get OIDC Client Secret: " "" oidc.client_secret
          oidc.client_secret_secret
    let oidc' = record oidc { client_secret = client_secret; client_secret_secret = none }
    if not (oidc.issuer_url == "") && not (oidc.client_id == "") && not (client_secret == "")
        then pure (oidc', true)
        else (do
          log_err "OIDC SSO requires issuerURL, clientID, and clientSecret"
          pure (oidc', false))

  -- The metadata of the section and the text to be checked: after a failed read the text is empty
  -- and the section keeps what it has.
  abbrev pub use_metadata : String → SecretKeySelector → Result String → Step K (String × String)
  use_metadata metadata selector (err e) = do
    log_err (String.◌++◌ "Failed to get SAML Identity Provider Metadata: " e)
    pure (metadata, "")
  use_metadata metadata selector (ok text) = do ref ← add_env selector; pure (ref, text)

  unfoldable pub saml_metadata : String → Option SecretKeySelector → Step K (String × String)
  unfolding get_secret add_env log_err
  saml_metadata metadata none = pure (metadata, metadata)
  saml_metadata metadata (some selector) = do
    r ← get_secret server namespace selector
    use_metadata metadata selector r

  -- The text is checked where it is not empty.
  abbrev pub check_metadata : SsoSamlSpec → Option String → Step K (SsoSamlSpec × Bool)
  check_metadata saml none = pure (saml, true)
  check_metadata saml (some e) = do
    log_err (String.◌++◌ "Invalid SAML Identity Provider Metadata: " e)
    pure (record saml { metadata = "" }, false)

  unfoldable pub validate_saml : SsoSamlSpec → Step K (SsoSamlSpec × Bool)
  unfolding saml_metadata
  validate_saml saml = do
    texts ← saml_metadata saml.metadata saml.metadata_secret
    let saml' = record saml { metadata = texts.0; metadata_secret = none }
    if texts.1 == ""
        then pure (saml', false)
        else check_metadata saml' (server.metadata_error texts.1)

  abbrev pub finish_oidc : SsoSpec → SsoOidcSpec × Bool → SsoSpec
  finish_oidc sso (oidc, true) = record sso { provider = "oidc"; oidc = some oidc }
  finish_oidc sso (oidc, false) = record sso { enabled = false; oidc = some oidc }

  abbrev pub finish_saml : SsoSpec → SsoSamlSpec × Bool → SsoSpec
  finish_saml sso (saml, true) = record sso { provider = "saml"; saml = some saml }
  finish_saml sso (saml, false) = record sso { enabled = false; saml = some saml }

  -- The section that is read: OIDC before SAML.
  unfoldable pub validate_provider :
      SsoSpec → Option SsoOidcSpec → Option SsoSamlSpec → Step K SsoSpec
  unfolding validate_oidc validate_saml
  validate_provider sso (some oidc) saml = do r ← validate_oidc oidc; pure (finish_oidc sso r)
  validate_provider sso none (some saml) = do r ← validate_saml saml; pure (finish_saml sso r)
  validate_provider sso none none = do
    log_err "SSO is enabled but neither saml nor oidc configuration is provided"
    pure (record sso { enabled = false })

  unfoldable pub validate_sso : Option SsoSpec → Step K (Option SsoSpec)
  unfolding validate_provider
  validate_sso none = pure none
  validate_sso (some sso) =
      if sso.enabled
      then (do sso' ← validate_provider sso sso.oidc sso.saml; pure (some sso'))
      else pure (some sso)

  unfoldable pub validate_anthropic : Option AnthropicSpec → Step K (Option AnthropicSpec)
  validate_anthropic none = pure none
  validate_anthropic (some a) = do
    api_key ←
        resolve server namespace "Failed to get Anthropic API Key: " "" a.api_key a.api_key_secret
    pure
        (if api_key == "" then none else some (record { api_key = api_key; api_key_secret = none }))

  unfoldable pub validate_open_ai : Option OpenAiSpec → Step K (Option OpenAiSpec)
  validate_open_ai none = pure none
  validate_open_ai (some a) = do
    api_key ←
        resolve server namespace "Failed to get OpenAI API Key: " "" a.api_key a.api_key_secret
    pure
        (if api_key == "" then none else some (record { api_key = api_key; api_key_secret = none }))

  unfoldable pub validate_open_ai_compatible :
      Option OpenAiCompatibleSpec → Step K (Option OpenAiCompatibleSpec)
  validate_open_ai_compatible none = pure none
  validate_open_ai_compatible (some a) = do
    api_key ← resolve server namespace "Failed to get API Key: " "" a.api_key a.api_key_secret
    pure (
        if api_key == ""
        then none
        else some (record a { api_key = api_key; api_key_secret = none }))

  -- The provider, or "" if its section is missing.
  abbrev pub if_present {ℓ} : {A : Type ℓ} → String → Option A → String
  if_present provider none = ""
  if_present provider (some a) = provider

  unfoldable pub validate_ai : Option AiSpec → Step K (Option AiSpec)
  unfolding validate_anthropic validate_open_ai validate_open_ai_compatible
  validate_ai none = pure none
  validate_ai (some ai) =
      if ai.provider == ""
      then pure (some ai)
      else if ai.provider == "anthropic"
      then (do
        a ← validate_anthropic ai.anthropic
        pure (some (record ai { anthropic = a; provider = if_present ai.provider a })))
      else if ai.provider == "openai"
      then (do
        a ← validate_open_ai ai.open_ai
        pure (some (record ai { open_ai = a; provider = if_present ai.provider a })))
      else if ai.provider == "openai_compatible"
      then (do
        a ← validate_open_ai_compatible ai.open_ai_compatible
        pure (some (record ai { open_ai_compatible = a; provider = if_present ai.provider a })))
      else (do
        log_err (String.◌++◌ "Unknown AI model provider: " ai.provider)
        pure (some (record ai { provider = "" })))
