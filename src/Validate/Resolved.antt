-- ===== src/Validate/Resolved.antt =====
-- What the rest of the program, and the server that reads the configuration, may rely on after
-- validateTelemetry: no pointer to a secret is left, and what is kept has its credentials.
use telemetry_operator.Base.{
  String, ◌≡◌, ◌≢◌, refl, false, Option, none, some, List, [], ◌∷◌, ◌==◌, Bool-cases, ◌||◌, inl,
  inr, ◌⊎◌,
}
use telemetry_operator.Base.Predicates.{
  IfSome, All, keep, nonempty, both_nonempty, all_nonempty, guarded, unless,
}
use telemetry_operator.Kube.{Kube, SecretKeySelector}
use telemetry_operator.Api.Common.{BasicAuthSpec}
use telemetry_operator.Api.Notifications.{
  NotificationIntegrationSlackSpec, NotificationIntegrationTeamsSpec,
  NotificationIntegrationPagerdutySpec, NotificationIntegrationOpsgenieSpec,
  NotificationIntegrationWebhookSpec, NotificationIntegrationsSpec,
}
use telemetry_operator.Api.Projects.{ApiKeySpec, RemoteTelemetrySpec, ProjectSpec}
use telemetry_operator.Cluster.{Server}
use telemetry_operator.Validate.Context.{Context}
use telemetry_operator.Validate.Secrets.{resolve}
use telemetry_operator.Validate.Notifications.{
  validate_slack, validate_teams, validate_pagerduty, validate_opsgenie, validate_basic_auth,
  validate_webhook, validate_integrations,
}
use telemetry_operator.Validate.Projects.{
  validate_api_key, validate_api_keys, validate_remote, validate_project, validate_projects,
}

abbrev pub SlackReady : NotificationIntegrationSlackSpec → Type 0
SlackReady s = (s.token ≢ "") × (s.token_secret ≡ none)

abbrev pub TeamsReady : NotificationIntegrationTeamsSpec → Type 0
TeamsReady t = (t.webhook_url ≢ "") × (t.webhook_url_secret ≡ none)

abbrev pub PagerdutyReady : NotificationIntegrationPagerdutySpec → Type 0
PagerdutyReady p = (p.integration_key ≢ "") × (p.integration_key_secret ≡ none)

abbrev pub OpsgenieReady : NotificationIntegrationOpsgenieSpec → Type 0
OpsgenieReady o = (o.api_key ≢ "") × (o.api_key_secret ≡ none)

abbrev pub BasicAuthReady : BasicAuthSpec → Type 0
BasicAuthReady a = (a.username ≢ "") × (a.password ≢ "") × (a.password_secret ≡ none)

-- A webhook has its URL, complete credentials if any, and a template for all that it notifies of
-- (alerts are not checked).
pub record WebhookReady (w : NotificationIntegrationWebhookSpec) : Type 0 where
  pub url : w.url ≢ ""
  pub auth : IfSome BasicAuthReady w.basic_auth
  pub incidents : (w.incidents ≡ false) ⊎ (w.incident_template ≢ "")
  pub deployments : (w.deployments ≡ false) ⊎ (w.deployment_template ≢ "")

pub record IntegrationsReady (n : NotificationIntegrationsSpec) : Type 0 where
  pub slack : IfSome SlackReady n.slack
  pub teams : IfSome TeamsReady n.teams
  pub pagerduty : IfSome PagerdutyReady n.pagerduty
  pub opsgenie : IfSome OpsgenieReady n.opsgenie
  pub webhook : IfSome WebhookReady n.webhook

abbrev pub RemoteReady : RemoteTelemetrySpec → Type 0
RemoteReady r =
    (r.url ≢ "") × (r.api_key ≢ "") × (r.metric_resolution ≢ "") × (r.api_key_secret ≡ none)

pub record ProjectReady {K : Kube} (p : ProjectSpec K) : Type 0 where
  pub remote : IfSome RemoteReady p.remote_telemetry
  pub keys : All (λ k. k.key_secret ≡ none) p.api_keys
  pub integrations : IfSome IntegrationsReady p.notification_integrations

module _ {K : Kube} (server : Server K) (namespace : String) where
  validate_slack-Ready :
      (s : Option NotificationIntegrationSlackSpec) (c : Context K)
      → IfSome SlackReady (validate_slack server namespace s c).0
  unfolding validate_slack
  validate_slack-Ready none c = tt
  validate_slack-Ready (some s) c = keep SlackReady _ _ (λ h. (nonempty _ h, refl))

  validate_teams-Ready :
      (t : Option NotificationIntegrationTeamsSpec) (c : Context K)
      → IfSome TeamsReady (validate_teams server namespace t c).0
  unfolding validate_teams
  validate_teams-Ready none c = tt
  validate_teams-Ready (some t) c = keep TeamsReady _ _ (λ h. (nonempty _ h, refl))

  validate_pagerduty-Ready :
      (p : Option NotificationIntegrationPagerdutySpec) (c : Context K)
      → IfSome PagerdutyReady (validate_pagerduty server namespace p c).0
  unfolding validate_pagerduty
  validate_pagerduty-Ready none c = tt
  validate_pagerduty-Ready (some p) c = keep PagerdutyReady _ _ (λ h. (nonempty _ h, refl))

  validate_opsgenie-Ready :
      (o : Option NotificationIntegrationOpsgenieSpec) (c : Context K)
      → IfSome OpsgenieReady (validate_opsgenie server namespace o c).0
  unfolding validate_opsgenie
  validate_opsgenie-Ready none c = tt
  validate_opsgenie-Ready (some o) c = keep OpsgenieReady _ _ (λ h. (nonempty _ h, refl))

  validate_basic_auth-Ready :
      (a : Option BasicAuthSpec) (c : Context K)
      → IfSome BasicAuthReady (validate_basic_auth server namespace a c).0
  unfolding validate_basic_auth
  validate_basic_auth-Ready none c = tt
  validate_basic_auth-Ready (some a) c =
      let given =
        resolve server namespace "Failed to get Webhook Basic Auth password: " "" a.password
          a.password_secret c in
      let kept : BasicAuthSpec = record a { password = given.0; password_secret = none } in
      keep BasicAuthReady _ kept
        λ h. let (user, password) = both_nonempty a.username given.0 h in (user, password, refl)

  validate_webhook-Ready :
      (w : Option NotificationIntegrationWebhookSpec) (c : Context K)
      → IfSome WebhookReady (validate_webhook server namespace w c).0
  unfolding validate_webhook
  validate_webhook-Ready none c = tt
  validate_webhook-Ready (some w) c = keep WebhookReady _ _ λ h. record {
    url = nonempty _ h;
    auth = validate_basic_auth-Ready w.basic_auth c;
    incidents = unless _ (guarded w.incidents w.incident_template);
    deployments = unless _ (guarded w.deployments w.deployment_template);
  }

  validate_integrations-Ready :
      (n : Option NotificationIntegrationsSpec) (c : Context K)
      → IfSome IntegrationsReady (validate_integrations server namespace n c).0
  unfolding validate_integrations
  validate_integrations-Ready none c = tt
  validate_integrations-Ready (some n) c = record {
    slack = validate_slack-Ready n.slack _;
    teams = validate_teams-Ready n.teams _;
    pagerduty = validate_pagerduty-Ready n.pagerduty _;
    opsgenie = validate_opsgenie-Ready n.opsgenie _;
    webhook = validate_webhook-Ready n.webhook _;
  }

  validate_remote-Ready :
      (r : Option RemoteTelemetrySpec) (c : Context K)
      → IfSome RemoteReady (validate_remote server namespace r c).0
  unfolding validate_remote
  validate_remote-Ready none c = tt
  validate_remote-Ready (some r) c =
      elim (Bool-cases (r.url == "" || key == "" || r.metric_resolution == "")) [
        | inl missing ↦ rw missing tt
        | inr present ↦
            let (url, api_key, resolution) = all_nonempty _ _ _ present in
            rw present (url, api_key, resolution, refl)
      ]
    where
      key : String
      key =
          (resolve server namespace "Failed to get Remote Telemetry API Key: " "" r.api_key
            r.api_key_secret c).0

validate_api_key-Ready :
    {K : Kube} (k : ApiKeySpec) (s : Option SecretKeySelector) (c : Context K)
    → k.key_secret ≡ s
    → (validate_api_key k s c).0.key_secret ≡ none
unfolding validate_api_key
validate_api_key-Ready k none c e = e
validate_api_key-Ready k (some s) c e = refl

validate_api_keys-Ready :
    {K : Kube} (ks : List ApiKeySpec) (c : Context K)
    → All (λ k. k.key_secret ≡ none) (validate_api_keys ks c).0
unfolding validate_api_keys
validate_api_keys-Ready [] c = tt
validate_api_keys-Ready (k ∷ ks) c =
    (validate_api_key-Ready k k.key_secret c refl, validate_api_keys-Ready ks _)

module _ {K : Kube} (server : Server K) (namespace : String) where
  validate_project-Ready :
      (p : ProjectSpec K) (c : Context K) → ProjectReady (validate_project server namespace p c).0
  unfolding validate_project
  validate_project-Ready p c = record {
    remote = validate_remote-Ready server namespace p.remote_telemetry c;
    keys = validate_api_keys-Ready p.api_keys _;
    integrations = validate_integrations-Ready server namespace p.notification_integrations _;
  }

  pub validate_projects-Ready :
      (ps : List (ProjectSpec K)) (c : Context K)
      → All ProjectReady (validate_projects server namespace ps c).0
  unfolding validate_projects
  validate_projects-Ready [] c = tt
  validate_projects-Ready (p ∷ ps) c = (validate_project-Ready p c, validate_projects-Ready ps _)
