-- ===== src/Api/Categories.antt =====
-- api/v1/config.go: application categories and their notification settings.
use telemetry_operator.Base.{String, Bool, Option, List}

pub record ApplicationCategoryNotificationSettingsSlackSpec : Type 0 where
  pub enabled : Bool
  pub channel : String

pub record ApplicationCategoryNotificationSettingsTeamsSpec : Type 0 where
  pub enabled : Bool

pub record ApplicationCategoryNotificationSettingsPagerdutySpec : Type 0 where
  pub enabled : Bool

pub record ApplicationCategoryNotificationSettingsOpsgenieSpec : Type 0 where
  pub enabled : Bool

pub record ApplicationCategoryNotificationSettingsWebhookSpec : Type 0 where
  pub enabled : Bool

pub record ApplicationCategoryNotificationSettingsAlertsSpec : Type 0 where
  pub enabled : Bool
  pub slack : Option ApplicationCategoryNotificationSettingsSlackSpec
  pub teams : Option ApplicationCategoryNotificationSettingsTeamsSpec
  pub pagerduty : Option ApplicationCategoryNotificationSettingsPagerdutySpec
  pub opsgenie : Option ApplicationCategoryNotificationSettingsOpsgenieSpec
  pub webhook : Option ApplicationCategoryNotificationSettingsWebhookSpec

pub record ApplicationCategoryNotificationSettingsIncidentsSpec : Type 0 where
  pub enabled : Bool
  pub slack : Option ApplicationCategoryNotificationSettingsSlackSpec
  pub teams : Option ApplicationCategoryNotificationSettingsTeamsSpec
  pub pagerduty : Option ApplicationCategoryNotificationSettingsPagerdutySpec
  pub opsgenie : Option ApplicationCategoryNotificationSettingsOpsgenieSpec
  pub webhook : Option ApplicationCategoryNotificationSettingsWebhookSpec

pub record ApplicationCategoryNotificationSettingsDeploymentsSpec : Type 0 where
  pub enabled : Bool
  pub slack : Option ApplicationCategoryNotificationSettingsSlackSpec
  pub teams : Option ApplicationCategoryNotificationSettingsTeamsSpec
  pub webhook : Option ApplicationCategoryNotificationSettingsWebhookSpec

pub record ApplicationCategoryNotificationSettingsSpec : Type 0 where
  pub incidents : ApplicationCategoryNotificationSettingsIncidentsSpec
  pub deployments : ApplicationCategoryNotificationSettingsDeploymentsSpec
  pub alerts : ApplicationCategoryNotificationSettingsAlertsSpec

pub record ApplicationCategorySpec : Type 0 where
  pub name : String
  pub custom_patterns : List String
  pub notification_settings : ApplicationCategoryNotificationSettingsSpec
