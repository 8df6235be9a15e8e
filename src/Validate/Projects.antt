-- ===== src/Validate/Projects.antt =====
-- controller/telemetry.go, lines 92 to 198: the projects, and the secrets of their API keys.
use telemetry_operator.Base.{
  String, true, ◌||◌, Option, none, some, List, [], ◌∷◌, ◌++◌, ◌==◌, if◌then◌else◌,
}
use telemetry_operator.Base.Map.{lookup, insert}
use telemetry_operator.Kube.{Kube, SecretKeySelector}
use telemetry_operator.Api.Projects.{ApiKeySpec, RemoteTelemetrySpec, ProjectSpec}
use telemetry_operator.Cluster.{Server, secret, create_or_update}
use telemetry_operator.Validate.Context.{Step, pure, ◌>>=◌, ◌>>◌, log_err}
use telemetry_operator.Validate.Secrets.{resolve, add_env}
use telemetry_operator.Validate.Notifications.{validate_integrations}

-- append(apiKeySecrets[name], key), at the name
abbrev keys_at : Option (List String) → List String
keys_at none = []
keys_at (some keys) = keys

unfoldable pub want_key : {K : Kube} → SecretKeySelector → Step K (Unit {0})
want_key s c =
    let keys = keys_at (lookup s.name c.api_key_secrets) in
    (tt, record c { api_key_secrets = insert s.name (keys ++ s.key ∷ []) c.api_key_secrets })

-- The round of the loop over a project's API keys.
unfoldable pub validate_api_key :
    {K : Kube} → ApiKeySpec → Option SecretKeySelector → Step K ApiKeySpec
unfolding want_key
validate_api_key k none = pure k
validate_api_key k (some selector) = do
  want_key selector
  key ← add_env selector
  pure (record k { key = key; key_secret = none })

unfoldable pub validate_api_keys : {K : Kube} → List ApiKeySpec → Step K (List ApiKeySpec)
unfolding validate_api_key
validate_api_keys [] = pure []
validate_api_keys (k ∷ ks) = do
  k' ← validate_api_key k k.key_secret
  ks' ← validate_api_keys ks
  pure (k' ∷ ks')

module _ {K : Kube} (server : Server K) (namespace : String) where
  unfoldable pub validate_remote : Option RemoteTelemetrySpec → Step K (Option RemoteTelemetrySpec)
  validate_remote none = pure none
  validate_remote (some rc) = do
    api_key ←
        resolve server namespace "Failed to get Remote Telemetry API Key: " "" rc.api_key
          rc.api_key_secret
    if rc.url == "" || api_key == "" || rc.metric_resolution == ""
        then (do log_err "Remote Telemetry requires url, apiKey, and metricResolution."; pure none)
        else pure (some (record rc { api_key = api_key; api_key_secret = none }))

  unfoldable pub validate_project : ProjectSpec K → Step K (ProjectSpec K)
  validate_project p = do
    remote ← validate_remote p.remote_telemetry
    keys ← validate_api_keys p.api_keys
    integrations ← validate_integrations server namespace p.notification_integrations
    pure (record p {
      remote_telemetry = remote;
      api_keys = keys;
      notification_integrations = integrations;
    })

  unfoldable pub validate_projects : List (ProjectSpec K) → Step K (List (ProjectSpec K))
  validate_projects [] = pure []
  validate_projects (p ∷ ps) = do
    p' ← validate_project p
    ps' ← validate_projects ps
    pure (p' ∷ ps')

-- CreateOrUpdateSecret, which asks for nothing if there is no key.
unfoldable pub secret_requests :
    {K : Kube} → String → List (String × List String) → Step K (Unit {0})
secret_requests namespace [] c = (tt, c)
secret_requests namespace ((name, []) ∷ rest) c = secret_requests namespace rest c
secret_requests namespace ((name, key ∷ keys) ∷ rest) c = secret_requests namespace rest (record c {
  history =
      create_or_update
        (secret (record { name = name; namespace = namespace; labels = []; annotations = [] })
          (key ∷ keys) 32)
        true
      ∷ c.history;
})
