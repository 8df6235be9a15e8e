-- ===== src/Builders/Ordinals.antt =====
-- The volume claims of the telemetry server and the pods of its stateful set (controller/telemetry.go,
-- telemetryPVCs and telemetryStatefulSet) agree on their names and their number.
use mathlib.Core.Option
use telemetry_operator.Base.{String}
use telemetry_operator.Kube.{Kube}
use telemetry_operator.Api.Telemetry.{Telemetry}
use telemetry_operator.ConfigEnvs.{ConfigEnvs}
use telemetry_operator.Versions.{Versions}
