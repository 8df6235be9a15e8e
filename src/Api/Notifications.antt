-- ===== src/Api/Notifications.antt =====
-- api/v1/config.go: the notification integrations of a project.
use telemetry_operator.Base.{String, Bool, Option, List}
use telemetry_operator.Kube.{StringMap, SecretKeySelector}
use telemetry_operator.Api.Common.{BasicAuthSpec, HeaderSpec}

pub record NotificationIntegrationSlackSpec : Type 0 where
  pub token : String
  pub token_secret : Option SecretKeySelector
  pub default_channel : String
  pub incidents : Bool
  pub deployments : Bool
  pub alerts : Option Bool

pub record NotificationIntegrationTeamsSpec : Type 0 where
  pub webhook_url : String
  pub webhook_url_secret : Option SecretKeySelector
  pub incidents : Bool
  pub deployments : Bool
  pub alerts : Option Bool

pub record NotificationIntegrationPagerdutySpec : Type 0 where
  pub integration_key : String
  pub integration_key_secret : Option SecretKeySelector
  pub incidents : Bool
  pub alerts : Option Bool

pub record NotificationIntegrationOpsgenieSpec : Type 0 where
  pub api_key : String
  pub api_key_secret : Option SecretKeySelector
  pub eu_instance : Bool
  pub incidents : Bool
  pub alerts : Option Bool

pub record NotificationIntegrationWebhookSpec : Type 0 where
  pub url : String
  pub tls_skip_verify : Bool
  pub basic_auth : Option BasicAuthSpec
  pub custom_headers : List HeaderSpec
  pub custom_fields : StringMap
  pub incidents : Bool
  pub deployments : Bool
  pub alerts : Option Bool
  pub incident_template : String
  pub deployment_template : String
  pub alert_template : String

pub record NotificationIntegrationsSpec : Type 0 where
  pub base_url : String
  pub slack : Option NotificationIntegrationSlackSpec
  pub teams : Option NotificationIntegrationTeamsSpec
  pub pagerduty : Option NotificationIntegrationPagerdutySpec
  pub opsgenie : Option NotificationIntegrationOpsgenieSpec
  pub webhook : Option NotificationIntegrationWebhookSpec
