-- ===== src/Builders/Config.antt =====
-- controller/telemetry.go: the configuration of the telemetry server (telemetryConfigMap) and the
-- deployment of older versions (telemetryDeployment). The YAML encoder (sigs.k8s.io/yaml, which is not
-- part of the repository) is a parameter.
use Prim.Native.String.{◌++◌}
use telemetry_operator.Base.{
  String, Bool, Option, none, some, List, [], ◌∷◌, is_some, is_zero_ℤ, if◌then◌else◌,
}
use telemetry_operator.Base.Sha256.{sha256_hex}
use telemetry_operator.Kube.{Kube}
use telemetry_operator.Api.Access.{SsoSpec, AiSpec}
use telemetry_operator.Api.Projects.{ProjectSpec}
use telemetry_operator.Api.Telemetry.{Telemetry, TelemetrySpec}
use telemetry_operator.Cluster.{Result, ok, err}
use telemetry_operator.Objects.{ConfigMap, Deployment}
use telemetry_operator.Builders.Labels.{meta_of}
use telemetry_operator.Builders.Environment.{https_listen_of}

-- The type TLS of the function.
pub record TlsFiles : Type 0 where
  pub cert_file : String
  pub key_file : String

-- The type Config of the function.
pub record Config (K : Kube) : Type 0 where
  pub listen_address : String
  pub https_listen_address : String
  pub http_disabled : Bool
  pub disable_builtin_alerts : Bool
  pub projects : List (ProjectSpec K)
  pub sso : Option SsoSpec
  pub ai : Option AiSpec
  pub tls : Option TlsFiles

unfoldable pub telemetry_config : (K : Kube) → TelemetrySpec K → Config K
telemetry_config K spec = record {
  listen_address = if spec.http_disabled then "" else ":8080";
  https_listen_address = if is_zero_ℤ spec.service.https_port then "" else https_listen_of K spec;
  http_disabled = spec.http_disabled;
  disable_builtin_alerts = spec.disable_builtin_alerts;
  projects = spec.projects;
  sso = spec.sso;
  ai = spec.ai;
  tls =
      if is_some spec.tls
      then some (record { cert_file = "/config/tls/tls.crt"; key_file = "/config/tls/tls.key" })
      else none;
}

-- The bytes, of which there are none after an error.
abbrev text_of : Result String → String
text_of (ok text) = text
text_of (err e) = ""

-- telemetryConfigMap: the object and the hash of its content
unfoldable pub telemetry_config_map :
    (K : Kube) → (Config K → Result String) → Telemetry K → ConfigMap × String
unfolding telemetry_config
telemetry_config_map K marshal cr =
    let text = text_of (marshal (telemetry_config K cr.spec)) in
    (
      record {
        meta = meta_of K cr (cr.name ++ "-telemetry") "telemetry";
        binary_data = ("config.yaml", text) ∷ [];
      },
      sha256_hex text,
    )

-- telemetryDeployment: a bare object, to be deleted
unfoldable pub telemetry_deployment : (K : Kube) → Telemetry K → Deployment K
telemetry_deployment K cr = record {
  meta = meta_of K cr (cr.name ++ "-telemetry") "telemetry";
  match_labels = [];
  strategy = "";
  template = none;
}
