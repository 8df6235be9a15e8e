-- ===== src/Validate/Requests.antt =====
-- The requests that validateTelemetry makes: it gets secrets, and it asks for the secrets of the API
-- keys. A property of histories that these requests keep is kept by the whole function.
use telemetry_operator.Base.{String, true, Option, none, some, List, [], ◌∷◌, ◌==◌, ◌||◌, if_intro}
use telemetry_operator.Kube.{Kube, SecretKeySelector}
use telemetry_operator.Api.Common.{BasicAuthSpec}
use telemetry_operator.Api.Notifications.{
  NotificationIntegrationWebhookSpec, NotificationIntegrationsSpec,
}
use telemetry_operator.Api.Projects.{ApiKeySpec, RemoteTelemetrySpec, ProjectSpec}
use telemetry_operator.Cluster.{
  Server, History, Result, ok, err, secret, create_or_update, get_secret as get_secret_request,
}
use telemetry_operator.Validate.Context.{Context, Step, log_err}
use telemetry_operator.Validate.Secrets.{get_secret_of, add_env, use_secret, resolve}
use telemetry_operator.Validate.Notifications.{
  validate_slack, validate_teams, validate_pagerduty, validate_opsgenie, validate_basic_auth,
  validate_webhook, validate_integrations,
}
use telemetry_operator.Validate.Projects.{
  want_key, validate_api_key, validate_api_keys, validate_remote, validate_project,
  validate_projects, secret_requests,
}

-- What the requests for secrets of a namespace keep.
pub record Closed (K : Kube) (namespace : String) (I : History K → Type 0) : Type 0 where
  pub get : (name : String) (h : History K) → I h → I (get_secret_request namespace name ∷ h)
  pub put :
      (name key : String) (keys : List String) (h : History K)
      → I h
      → I (
          create_or_update
            (secret
              (record { name = name; namespace = namespace; labels = []; annotations = [] })
              (key ∷ keys)
              32)
            true
          ∷ h)

module _ {K : Kube} (server : Server K) (namespace : String) {I : History K → Type 0}
    (closed : Closed K namespace I) where
  abbrev pub Keeps : {A : Type 0} → Step K A → Type 0
  Keeps m = (c : Context K) → I c.history → I (m c).1.history

  pub get_secret_of-Keeps :
      (s : Option SecretKeySelector) → Keeps (get_secret_of server namespace s)
  unfolding get_secret_of
  get_secret_of-Keeps none c i = i
  get_secret_of-Keeps (some s) c i = closed.get s.name c.history i

  use_secret-Keeps :
      (prefix suffix value : String) (s : SecretKeySelector) (r : Result String)
      → Keeps (use_secret prefix suffix value s r)
  unfolding log_err add_env
  use_secret-Keeps prefix suffix value s (ok _) c i = i
  use_secret-Keeps prefix suffix value s (err e) c i = i

  pub resolve-Keeps :
      (prefix suffix value : String) (s : Option SecretKeySelector)
      → Keeps (resolve server namespace prefix suffix value s)
  unfolding resolve
  resolve-Keeps prefix suffix value none c i = i
  resolve-Keeps prefix suffix value (some s) c i =
      use_secret-Keeps prefix suffix value s _ _ (closed.get s.name c.history i)

  pub optional-Keeps :
      {A : Type 0} (m : Option A → Step K (Option A))
      → Keeps (m none)
      → ((a : A) → Keeps (m (some a)))
      → (o : Option A) → Keeps (m o)
  optional-Keeps m f g none = f
  optional-Keeps m f g (some a) = g a

  validate_basic_auth-Keeps :
      (a : Option BasicAuthSpec) → Keeps (validate_basic_auth server namespace a)
  unfolding validate_basic_auth
  validate_basic_auth-Keeps =
      optional-Keeps (validate_basic_auth server namespace) (λ c i. i) (λ a. resolve-Keeps _ _ _ _)

  validate_webhook-Keeps :
      (w : Option NotificationIntegrationWebhookSpec) → Keeps (validate_webhook server namespace w)
  unfolding validate_webhook
  validate_webhook-Keeps none c i = i
  validate_webhook-Keeps (some w) c i = validate_basic_auth-Keeps w.basic_auth c i

  validate_integrations-Keeps :
      (n : Option NotificationIntegrationsSpec) → Keeps (validate_integrations server namespace n)
  unfolding validate_integrations validate_slack validate_teams validate_pagerduty validate_opsgenie
  validate_integrations-Keeps none c i = i
  validate_integrations-Keeps (some n) c i = validate_webhook-Keeps n.webhook _ (
      optional-Keeps (validate_opsgenie server namespace) (λ c i. i) (λ a. resolve-Keeps _ _ _ _)
        n.opsgenie _
        (optional-Keeps (validate_pagerduty server namespace) (λ c i. i)
          (λ a. resolve-Keeps _ _ _ _) n.pagerduty _
          (optional-Keeps (validate_teams server namespace) (λ c i. i) (λ a. resolve-Keeps _ _ _ _)
            n.teams _
            (optional-Keeps (validate_slack server namespace) (λ c i. i)
              (λ a. resolve-Keeps _ _ _ _) n.slack c i))))

  validate_remote-Keeps :
      (r : Option RemoteTelemetrySpec) → Keeps (validate_remote server namespace r)
  unfolding validate_remote log_err
  validate_remote-Keeps none c i = i
  validate_remote-Keeps (some r) c i =
      let (key, c1) =
        resolve server namespace "Failed to get Remote Telemetry API Key: " "" r.api_key
          r.api_key_secret c in
      let kept : I c1.history = resolve-Keeps _ "" r.api_key r.api_key_secret c i in
      if_intro {A = Step K (Option RemoteTelemetrySpec)} (λ m. I (m c1).1.history)
        (r.url == "" || key == "" || r.metric_resolution == "") _ _ (λ _. kept) (λ _. kept)

  validate_api_key-Keeps :
      (k : ApiKeySpec) (s : Option SecretKeySelector) → Keeps (validate_api_key k s)
  unfolding validate_api_key want_key add_env
  validate_api_key-Keeps k none c i = i
  validate_api_key-Keeps k (some s) c i = i

  validate_api_keys-Keeps : (ks : List ApiKeySpec) → Keeps (validate_api_keys ks)
  unfolding validate_api_keys
  validate_api_keys-Keeps [] c i = i
  validate_api_keys-Keeps (k ∷ ks) c i =
      validate_api_keys-Keeps ks _ (validate_api_key-Keeps k k.key_secret c i)

  pub validate_projects-Keeps :
      (ps : List (ProjectSpec K)) → Keeps (validate_projects server namespace ps)
  unfolding validate_projects validate_project
  validate_projects-Keeps [] c i = i
  validate_projects-Keeps (p ∷ ps) c i = validate_projects-Keeps ps _ (
      validate_integrations-Keeps p.notification_integrations _
        (validate_api_keys-Keeps p.api_keys _ (validate_remote-Keeps p.remote_telemetry c i)))

  pub secret_requests-Keeps :
      (wanted : List (String × List String)) → Keeps (secret_requests namespace wanted)
  unfolding secret_requests
  secret_requests-Keeps [] c i = i
  secret_requests-Keeps ((name, []) ∷ rest) c i = secret_requests-Keeps rest c i
  secret_requests-Keeps ((name, key ∷ keys) ∷ rest) c i =
      secret_requests-Keeps rest _ (closed.put name key keys c.history i)
