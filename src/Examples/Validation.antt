-- ===== src/Examples/Validation.antt =====
-- Runs of validateTelemetry on one custom resource, and of what is built from its result.
use telemetry_operator.Base.{◌≡◌, refl, true, is_some, [], not, ◌||◌}
use telemetry_operator.Base.Predicates.{IfSome, All}
use telemetry_operator.Base.Text.{ends_with_slash}
use telemetry_operator.Api.Telemetry.{Telemetry}
use telemetry_operator.Validate.{Outcome, returned, panicked, validate_telemetry, above_one}
use telemetry_operator.Validate.Granted.{SsoReady}
use telemetry_operator.Validate.AiGranted.{AiReady}
use telemetry_operator.Validate.Resolved.{ProjectReady}
use telemetry_operator.Validate.Returns.{did_return, has_selectors}
use telemetry_operator.Validate.Validated.{
  PortsReady, did_return-validate_telemetry, validate_telemetry-PortsReady,
  validate_telemetry-ProjectReady, validate_telemetry-SsoReady, validate_telemetry-AiReady,
  validate_telemetry-replicas, validate_telemetry-endpoint,
}
use telemetry_operator.Builders.Front.{
  telemetry_service, telemetry_ingress_v1, telemetry_ingress_v1_beta1,
}
use telemetry_operator.Builders.Routing.{Served, telemetry_ingress-Served}
use telemetry_operator.Examples.World.{kube, server, resource}

abbrev or_resource : Outcome (Telemetry kube) → Telemetry kube
or_resource (returned cr) = cr
or_resource panicked = resource

abbrev pub result : Outcome (Telemetry kube)
result = (validate_telemetry server resource [] []).0

-- The custom resource that the call returns.
abbrev pub validated : Telemetry kube
validated = or_resource result

did_return-validate_telemetry_example : did_return result ≡ has_selectors resource.spec.tls
did_return-validate_telemetry_example = did_return-validate_telemetry server resource [] []

returned_of : (o : Outcome (Telemetry kube)) → did_return o ≡ true → o ≡ returned (or_resource o)
returned_of (returned cr) h = refl
returned_of panicked h = absurd (cc)

pub result_lem : result ≡ returned validated
result_lem = returned_of result (did_return-validate_telemetry server resource [] [])

validate_telemetry-PortsReady_example : PortsReady validated.spec
validate_telemetry-PortsReady_example =
    validate_telemetry-PortsReady server resource validated [] [] result_lem

validate_telemetry-ProjectReady_example : All ProjectReady validated.spec.projects
validate_telemetry-ProjectReady_example =
    validate_telemetry-ProjectReady server resource validated [] [] result_lem

validate_telemetry-SsoReady_example : IfSome SsoReady validated.spec.sso
validate_telemetry-SsoReady_example =
    validate_telemetry-SsoReady server resource validated [] [] result_lem

validate_telemetry-AiReady_example : IfSome AiReady validated.spec.ai
validate_telemetry-AiReady_example =
    validate_telemetry-AiReady server resource validated [] [] result_lem

validate_telemetry-replicas_example :
    (not (above_one validated.spec.replicas) || is_some validated.spec.postgres) ≡ true
validate_telemetry-replicas_example =
    validate_telemetry-replicas server resource validated [] [] result_lem

validate_telemetry-endpoint_example :
    IfSome (λ s. ends_with_slash s.endpoint ≡ true) validated.spec.clickhouse.s3
validate_telemetry-endpoint_example =
    validate_telemetry-endpoint server resource validated [] [] result_lem

telemetry_ingress-Served_example :
    IfSome (Served (telemetry_service kube validated)) (telemetry_ingress_v1 kube validated).spec
    × IfSome
        (Served (telemetry_service kube validated))
        (telemetry_ingress_v1_beta1 kube validated).spec
telemetry_ingress-Served_example =
    telemetry_ingress-Served kube server resource validated [] [] result_lem
