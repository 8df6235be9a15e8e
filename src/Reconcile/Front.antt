-- ===== src/Reconcile/Front.antt =====
-- The requests for the ingress and for Prometheus: what they need has been asked for.
use Prim.Native.String.{◌++◌}
use mathlib.Core.List.{Memᴰ}
use telemetry_operator.Base.{
  ◌≡◌, refl, Bool, true, false, not, ◌&&◌, Option, none, some, is_some, if_intro, ◌==◌,
}
use telemetry_operator.Kube.{Kube}
use telemetry_operator.Api.Telemetry.{IngressSpec, Telemetry}
use telemetry_operator.Cluster.{History}
use telemetry_operator.Builders.Rights.{scc_nonroot}
use telemetry_operator.Builders.Front.{telemetry_ingress_v1, telemetry_ingress_v1_beta1}
use telemetry_operator.Builders.Stores.{prometheus_pvc}
use telemetry_operator.Builders.Metrics.{prometheus_deployment}
use telemetry_operator.Reconcile.Requests.{create_or_update_ingress}
use telemetry_operator.Reconcile.Calls.{
  Environment, front_calls, prometheus_block, prometheus_calls,
}
use telemetry_operator.Reconcile.Since.{Fits, Safe}
use telemetry_operator.Reconcile.Ready.{Ready, HasService, keeps_account}
use telemetry_operator.Reconcile.Agents.{HasRoles, service_account-Fits, service_account-HasAccount}

module _ (K : Kube) (env : Environment K) (cr : Telemetry K) where
  ingress-Fits :
      (h : History K) (i : Option IngressSpec)
      → cr.spec.ingress ≡ i
      → HasService h cr.namespace (cr.name ++ "-telemetry")
      → Fits Ready
          (create_or_update_ingress K env.ingress_api_version cr (not (is_some cr.spec.ingress)))
          h
  unfolding create_or_update_ingress telemetry_ingress_v1 telemetry_ingress_v1_beta1 Fits
  ingress-Fits h none e service = rw e (
      if_intro (λ l. Fits Ready l h) (env.ingress_api_version == "networking.k8s.io/v1") _ _
        (λ _. (tt, tt)) (λ _. (tt, tt)))
  ingress-Fits h (some i) e service = rw e (
      if_intro (λ l. Fits Ready l h) (env.ingress_api_version == "networking.k8s.io/v1") _ _
        (λ _. (service, tt)) (λ _. (service, tt)))

  pub front_calls-Safe :
      (deleted : Bool) (h : History K)
      → HasService h cr.namespace (cr.name ++ "-telemetry")
      → Safe Ready (front_calls K env cr deleted) h
  unfolding front_calls Safe Fits
  front_calls-Safe true h service = (tt, (ingress-Fits h cr.spec.ingress refl service, tt))
  front_calls-Safe false h (s, m, at) =
      ((tt, tt), (ingress-Fits _ cr.spec.ingress refl (s, Memᴰ.tail m, at), tt))

  prometheus_block-Safe :
      (h : History K) → HasRoles K cr h → Safe Ready (prometheus_block K env cr) h
  unfolding Safe Fits prometheus_deployment prometheus_pvc
  prometheus_block-Safe h (nonroot, privileged) =
      let policy = cr.spec.prometheus.storage.reclaim_policy in
      (
        service_account-Fits K cr "prometheus" scc_nonroot h nonroot,
        (
          (tt, tt),
          (
            (
              (
                keeps_account (λ r m. Memᴰ.tail m) _ _
                    (service_account-HasAccount K cr "prometheus" scc_nonroot h),
                (tt, ((prometheus_pvc K cr, policy == "Retain", Memᴰ.head refl, (refl, refl)), tt)),
              ),
              tt,
            ),
            ((tt, tt), tt),
          ),
        ),
      )

  pub prometheus_calls-Safe :
      (h : History K) → HasRoles K cr h → Safe Ready (prometheus_calls K env cr) h
  unfolding prometheus_calls Safe
  prometheus_calls-Safe h roles =
      if_intro (λ l. Safe Ready l h)
        (not (is_some cr.spec.external_prometheus) && not cr.spec.store_metrics_in_clickhouse) _ _
        (λ _. prometheus_block-Safe h roles) (λ _. tt)
