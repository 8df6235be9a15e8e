-- ===== src/Examples/World.antt =====
-- A cluster, an API server and custom resources to run the functions on.
use telemetry_operator.Base.{
  pos, ℕ, leb, ltb, eqb, true, false, none, some, [], ◌∷◌, ◌==◌, if◌then◌else◌,
}
use telemetry_operator.Kube.{Kube, SecretKeySelector}
use telemetry_operator.Api.Projects.{ProjectSpec}
use telemetry_operator.Api.Stores.{PostgresSpec, zero_clickhouse_spec}
use telemetry_operator.Api.Telemetry.{Telemetry, zero_telemetry_spec, zero_telemetry_status}
use telemetry_operator.Cluster.{Server, ok, err, not_found}

-- Quantities are numbers; a text of a quantity reads as ten.
abbrev pub kube : Kube
kube = record {
  Quantity = ℕ;
  zero_quantity = 0;
  is_zero = λ q. eqb q 0;
  parse_quantity = λ text. 10;
  quantity_string = λ q. "quantity";
  cmp_ge = λ a b. leb b a;
  cmp_gt = λ a b. ltb b a;
  Affinity = ℕ;
  Toleration = ℕ;
  tolerate_all = 0;
  UpdateStrategy = ℕ;
  zero_update_strategy = 0;
  Duration = ℕ;
  EnvSource = ℕ;
  ResourceClaim = ℕ;
}

-- One secret, "creds", with the key "token".
abbrev pub server : Server kube
server = record {
  telemetry = λ history namespace name. not_found;
  secret_data = λ history namespace name.
      if name == "creds" then ok (("token", "t0p") ∷ []) else err "not found";
  metadata_error = λ metadata. none;
  range_order = λ requests. requests;
}

abbrev pub creds : SecretKeySelector
creds = record { name = "creds"; key = "token" }

abbrev pub missing : SecretKeySelector
missing = record { name = "gone"; key = "token" }

-- A remote instance whose key stands in a secret that is there, a Slack integration whose token
-- does not, and a webhook without a template for its incidents.
abbrev pub project : ProjectSpec kube
project = record {
  name = "staging";
  member_projects = [];
  remote_telemetry = some (record {
    url = "https://remote";
    tls_skip_verify = false;
    api_key = "";
    api_key_secret = some creds;
    metric_resolution = "15s";
  });
  api_keys = record { key = ""; key_secret = some creds; description = "agents" } ∷ [];
  notification_integrations = some (record {
    base_url = "https://telemetry";
    slack = some (record {
      token = "";
      token_secret = some missing;
      default_channel = "#ops";
      incidents = true;
      deployments = false;
      alerts = none;
    });
    teams = none;
    pagerduty = none;
    opsgenie = none;
    webhook = some (record {
      url = "https://hook";
      tls_skip_verify = false;
      basic_auth = some (record { username = "u"; password = ""; password_secret = some creds });
      custom_headers = [];
      custom_fields = [];
      incidents = true;
      deployments = true;
      alerts = none;
      incident_template = "";
      deployment_template = "d";
      alert_template = "";
    });
  });
  application_categories = [];
  custom_applications = [];
  alerting_rules = [];
  inspection_overrides = none;
}

abbrev pub postgres : PostgresSpec
postgres = record {
  host = "db";
  port = pos 5432;
  user = "telemetry";
  database = "main";
  password = "";
  password_secret = some creds;
  params = ("connect_timeout", "10") ∷ ("user", "other") ∷ ("sslmode", "") ∷ [];
}

-- A custom resource with a project, single sign-on, an AI provider, three replicas on Postgres, an
-- ingress for HTTPS alone, and Clickhouse with two shards of two replicas on S3.
abbrev pub resource : Telemetry kube
resource = record {
  name = "prod";
  namespace = "monitoring";
  status = zero_telemetry_status;
  spec = record (zero_telemetry_spec kube) {
    http_disabled = true;
    replicas = pos 3;
    postgres = some postgres;
    projects = project ∷ [];
    ingress = some (record {
      class_name = some "nginx";
      host = "telemetry.example";
      path = "ui";
      tls = none;
      annotations = ("team", "sre") ∷ [];
    });
    sso = some (record {
      enabled = true;
      force_sso = false;
      provider = "";
      default_role = "Viewer";
      saml = none;
      oidc = some (record {
        issuer_url = "https://idp";
        client_id = "telemetry";
        client_secret = "";
        client_secret_secret = some creds;
      });
    });
    ai = some (record {
      provider = "anthropic";
      anthropic = some (record { api_key = ""; api_key_secret = some creds });
      open_ai = none;
      open_ai_compatible = none;
    });
    clickhouse = record (zero_clickhouse_spec kube) {
      shards = pos 2;
      replicas = pos 2;
      s3 = some (record {
        endpoint = "https://bucket/data";
        region = "eu";
        credentials = none;
        cache_size = 5;
        mode = "";
        move_factor = "";
      });
    };
  };
}
