-- ===== src/Api/Access.antt =====
-- api/v1/config.go: single sign-on and the AI providers.
use telemetry_operator.Base.{String, Bool, Option}
use telemetry_operator.Kube.{SecretKeySelector}

pub record SsoSamlSpec : Type 0 where
  pub metadata : String
  pub metadata_secret : Option SecretKeySelector

pub record SsoOidcSpec : Type 0 where
  pub issuer_url : String
  pub client_id : String
  pub client_secret : String
  pub client_secret_secret : Option SecretKeySelector

pub record SsoSpec : Type 0 where
  pub enabled : Bool
  pub force_sso : Bool
  pub provider : String
  pub default_role : String
  pub saml : Option SsoSamlSpec
  pub oidc : Option SsoOidcSpec

pub record AnthropicSpec : Type 0 where
  pub api_key : String
  pub api_key_secret : Option SecretKeySelector

pub record OpenAiSpec : Type 0 where
  pub api_key : String
  pub api_key_secret : Option SecretKeySelector

pub record OpenAiCompatibleSpec : Type 0 where
  pub api_key : String
  pub api_key_secret : Option SecretKeySelector
  pub base_url : String
  pub model : String

pub record AiSpec : Type 0 where
  pub provider : String
  pub anthropic : Option AnthropicSpec
  pub open_ai : Option OpenAiSpec
  pub open_ai_compatible : Option OpenAiCompatibleSpec
