-- ===== src/Examples/Pods.antt =====
-- The stateful set of the telemetry server for a resource with TLS and three replicas.
use mathlib.Core.Option
use telemetry_operator.Base.{◌≡◌, refl, pos, negsuc, true, false, some, []}
use telemetry_operator.Api.Telemetry.{Telemetry}
use telemetry_operator.Objects.{StatefulSet}
use telemetry_operator.Registry.{RegistryConfig}
use telemetry_operator.Validate.{Outcome, returned, panicked}
use telemetry_operator.Validate.Returns.{did_return}
use telemetry_operator.Validate.Validated.{PortsReady}
use telemetry_operator.Builders.Server.{telemetry_stateful_set}
use telemetry_operator.Builders.Declared.{
  Declares, did_return-telemetry_stateful_set, telemetry_stateful_set-Declares,
}
use telemetry_operator.Examples.World.{kube, resource, creds}

abbrev pub registry : RegistryConfig
registry = record {
  image_prefix = "ghcr.io/telemetryinc";
  pull_secret_name = "";
  tls_skip_verify = false;
  host = "ghcr.io";
  username = "";
  password = "";
}

-- The resource with TLS and the ports that validateTelemetry sets.
abbrev pub with_tls : Telemetry kube
with_tls = record resource {
  spec = record resource.spec {
    tls = some (record { cert_secret = some creds; key_secret = some creds });
    service = record resource.spec.service {
      port = pos 8080;
      grpc_port = pos 4317;
      https_port = pos 8443;
    };
  };
}

abbrev negative : Telemetry kube
negative = record resource { spec = record resource.spec { replicas = negsuc 0 } }

with_tls-PortsReady : PortsReady with_tls.spec
with_tls-PortsReady = record { http = refl; grpc = refl; https = refl }

abbrev pub built : Outcome (StatefulSet kube)
built = telemetry_stateful_set kube [] registry with_tls [] "hash"

did_return-telemetry_stateful_set_example :
    did_return (telemetry_stateful_set kube [] registry negative [] "hash") ≡ false
did_return-telemetry_stateful_set_example =
    did_return-telemetry_stateful_set kube [] registry negative [] "hash"

pub value_lem : {A : Type 0} (o : Outcome A) → did_return o ≡ true → (a : A) × (o ≡ returned a)
value_lem (returned s) h = (s, refl)
value_lem panicked h = absurd (cc)

pub built_lem : (s : StatefulSet kube) × (built ≡ returned s)
built_lem = value_lem built (did_return-telemetry_stateful_set kube [] registry with_tls [] "hash")

telemetry_stateful_set-Declares_example : Declares built_lem.0
telemetry_stateful_set-Declares_example =
    telemetry_stateful_set-Declares kube [] registry with_tls [] "hash" built_lem.0
      with_tls-PortsReady built_lem.1
