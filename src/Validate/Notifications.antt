-- ===== src/Validate/Notifications.antt =====
-- controller/telemetry.go, lines 116 to 193: the notification integrations of a project.
use telemetry_operator.Base.{String, not, ◌&&◌, ◌||◌, Option, none, some, ◌==◌, if◌then◌else◌}
use telemetry_operator.Kube.{Kube}
use telemetry_operator.Api.Common.{BasicAuthSpec}
use telemetry_operator.Api.Notifications.{
  NotificationIntegrationSlackSpec, NotificationIntegrationTeamsSpec,
  NotificationIntegrationPagerdutySpec, NotificationIntegrationOpsgenieSpec,
  NotificationIntegrationWebhookSpec, NotificationIntegrationsSpec,
}
use telemetry_operator.Cluster.{Server}
use telemetry_operator.Validate.Context.{Step, pure, ◌>>=◌}
use telemetry_operator.Validate.Secrets.{resolve}

module _ {K : Kube} (server : Server K) (namespace : String) where
  unfoldable pub validate_slack :
      Option NotificationIntegrationSlackSpec → Step K (Option NotificationIntegrationSlackSpec)
  validate_slack none = pure none
  validate_slack (some slack) = do
    token ←
        resolve server namespace "Failed to get Slack Token: " "." slack.token slack.token_secret
    pure (if token == "" then none else some (record slack { token = token; token_secret = none }))

  unfoldable pub validate_teams :
      Option NotificationIntegrationTeamsSpec → Step K (Option NotificationIntegrationTeamsSpec)
  validate_teams none = pure none
  validate_teams (some teams) = do
    webhook_url ←
        resolve server namespace "Failed to get MS Teams Webhook URL: " "." teams.webhook_url
          teams.webhook_url_secret
    pure (
        if webhook_url == ""
        then none
        else some (record teams { webhook_url = webhook_url; webhook_url_secret = none }))

  unfoldable pub validate_pagerduty :
      Option NotificationIntegrationPagerdutySpec
      → Step K (Option NotificationIntegrationPagerdutySpec)
  validate_pagerduty none = pure none
  validate_pagerduty (some pagerduty) = do
    integration_key ←
        resolve server namespace "Failed to get PagerDuty Integration Key: " "."
          pagerduty.integration_key pagerduty.integration_key_secret
    pure (
        if integration_key == ""
        then none
        else some
            (record pagerduty { integration_key = integration_key; integration_key_secret = none }))

  unfoldable pub validate_opsgenie :
      Option NotificationIntegrationOpsgenieSpec
      → Step K (Option NotificationIntegrationOpsgenieSpec)
  validate_opsgenie none = pure none
  validate_opsgenie (some opsgenie) = do
    api_key ←
        resolve server namespace "Failed to get Opsgenie API Key: " "" opsgenie.api_key
          opsgenie.api_key_secret
    pure (
        if api_key == ""
        then none
        else some (record opsgenie { api_key = api_key; api_key_secret = none }))

  unfoldable pub validate_basic_auth : Option BasicAuthSpec → Step K (Option BasicAuthSpec)
  validate_basic_auth none = pure none
  validate_basic_auth (some auth) = do
    password ←
        resolve server namespace "Failed to get Webhook Basic Auth password: " "" auth.password
          auth.password_secret
    pure (
        if auth.username == "" || password == ""
        then none
        else some (record auth { password = password; password_secret = none }))

  unfoldable pub validate_webhook :
      Option NotificationIntegrationWebhookSpec → Step K (Option NotificationIntegrationWebhookSpec)
  validate_webhook none = pure none
  validate_webhook (some webhook) = do
    auth ← validate_basic_auth webhook.basic_auth
    pure (
        if webhook.url == ""
        then none
        else some (record webhook {
          basic_auth = auth;
          incidents = webhook.incidents && not (webhook.incident_template == "");
          deployments = webhook.deployments && not (webhook.deployment_template == "");
        }))

  unfoldable pub validate_integrations :
      Option NotificationIntegrationsSpec → Step K (Option NotificationIntegrationsSpec)
  unfolding validate_slack validate_teams validate_pagerduty validate_opsgenie validate_webhook
      validate_basic_auth
  validate_integrations none = pure none
  validate_integrations (some n) = do
    slack ← validate_slack n.slack
    teams ← validate_teams n.teams
    pagerduty ← validate_pagerduty n.pagerduty
    opsgenie ← validate_opsgenie n.opsgenie
    webhook ← validate_webhook n.webhook
    pure (
        some (record n {
          slack = slack;
          teams = teams;
          pagerduty = pagerduty;
          opsgenie = opsgenie;
          webhook = webhook;
        }))
