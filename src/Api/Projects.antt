-- ===== src/Api/Projects.antt =====
-- api/v1/config.go: projects.
use telemetry_operator.Base.{String, Bool, Option, List}
use telemetry_operator.Kube.{Kube, SecretKeySelector}
use telemetry_operator.Api.Notifications.{NotificationIntegrationsSpec}
use telemetry_operator.Api.Categories.{ApplicationCategorySpec}
use telemetry_operator.Api.Alerting.{AlertingRuleSpec}

pub record ApiKeySpec : Type 0 where
  pub key : String
  pub key_secret : Option SecretKeySelector
  pub description : String

pub record RemoteTelemetrySpec : Type 0 where
  pub url : String
  pub tls_skip_verify : Bool
  pub api_key : String
  pub api_key_secret : Option SecretKeySelector
  pub metric_resolution : String

pub record CustomApplicationSpec : Type 0 where
  pub name : String
  pub instance_patterns : List String

pub record SloAvailabilityOverride : Type 0 where
  pub application_id : String
  pub objective_percent : String

pub record SloLatencyOverride (K : Kube) : Type 0 where
  pub application_id : String
  pub objective_percent : String
  pub objective_threshold : K.Duration

pub record InspectionOverrides (K : Kube) : Type 0 where
  pub slo_availability : List SloAvailabilityOverride
  pub slo_latency : List (SloLatencyOverride K)

pub record ProjectSpec (K : Kube) : Type 0 where
  pub name : String
  pub member_projects : List String
  pub remote_telemetry : Option RemoteTelemetrySpec
  pub api_keys : List ApiKeySpec
  pub notification_integrations : Option NotificationIntegrationsSpec
  pub application_categories : List ApplicationCategorySpec
  pub custom_applications : List CustomApplicationSpec
  pub alerting_rules : List AlertingRuleSpec
  pub inspection_overrides : Option (InspectionOverrides K)
