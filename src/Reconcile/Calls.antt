-- ===== src/Reconcile/Calls.antt =====
-- controller/controller.go, Reconcile: the requests of a resource that is found, in the order of the
-- code.
use mathlib.Core.List.{◌++◌ as append}
use telemetry_operator.Base.{
  String, Bool, false, not, ◌&&◌, is_some, List, [], ◌∷◌, if◌then◌else◌, map,
}
use telemetry_operator.Kube.{Kube}
use telemetry_operator.Api.Telemetry.{Telemetry}
use telemetry_operator.Objects.{PersistentVolumeClaim, StatefulSet}
use telemetry_operator.Registry.{RegistryConfig}
use telemetry_operator.Versions.{Versions}
use telemetry_operator.ConfigEnvs.{ConfigEnvs}
use telemetry_operator.Cluster.{Request, History, Result, delete, deployment}
use telemetry_operator.Validate.{Outcome, returned, panicked}
use telemetry_operator.Builders.Rights.{
  scc_nonroot, scc_privileged, openshift_scc_role, cluster_agent_cluster_role,
  cluster_agent_cluster_role_binding,
}
use telemetry_operator.Builders.Front.{telemetry_service, telemetry_pvcs}
use telemetry_operator.Builders.Stores.{
  clickhouse_password_secret, clickhouse_service, clickhouse_service_headless, clickhouse_pvcs,
  clickhouse_keeper_service_headless, clickhouse_keeper_pvcs, prometheus_service, prometheus_pvc,
}
use telemetry_operator.Builders.Server.{telemetry_stateful_set}
use telemetry_operator.Builders.Config.{Config, telemetry_config_map, telemetry_deployment}
use telemetry_operator.Builders.Databases.{clickhouse_stateful_sets, clickhouse_keeper_stateful_set}
use telemetry_operator.Builders.Metrics.{prometheus_deployment}
use telemetry_operator.Builders.AgentPods.{cluster_agent_deployment, node_agent_daemon_set}
use telemetry_operator.Reconcile.Requests.{
  create_or_update_config_map, create_or_update_deployment, create_or_update_daemon_set,
  create_or_update_stateful_set, create_or_update_pvc, create_or_update_service,
  create_or_update_role, create_or_update_cluster_role, create_or_update_cluster_role_binding,
  create_or_update_secret, create_or_update_service_account, create_or_update_ingress,
}

-- What the run of one Reconcile reads: the variable DENY_GLOBAL_SECRETS, the fields of
-- TelemetryReconciler that are set at the start, its versions (taken not to change during the run),
-- and yaml.Marshal.
pub record Environment (K : Kube) : Type 0 where
  pub deny_global_secrets : String
  pub ingress_api_version : String
  pub versions : Versions
  pub registry : RegistryConfig
  pub marshal : Config K → Result String

-- Requests in the order of the code. Where the argument of a call panics, the run ends.
abbrev pub Calls : Kube → Type 0
Calls K = List (Outcome (List (Request K)))

abbrev pub ask {ℓ} : {A : Type ℓ} → List A → List A → List A
ask [] history = history
ask (r ∷ rs) history = ask rs (r ∷ history)

-- Whether the calls come to their end, and the requests made by then.
unfoldable pub issue : {K : Kube} → Calls K → History K → Outcome (Unit {0}) × History K
issue [] history = (returned tt, history)
issue (panicked ∷ calls) history = (panicked, history)
issue (returned rs ∷ calls) history = issue calls (ask rs history)

abbrev pub then_issue :
    {K : Kube} → Outcome (Unit {0}) × History K → Calls K → Outcome (Unit {0}) × History K
then_issue (panicked, history) calls = (panicked, history)
then_issue (returned done, history) calls = issue calls history

module _ (K : Kube) (env : Environment K) where
  -- for _, pvc := range pvcs { r.CreateOrUpdatePVC(ctx, cr, pvc, reclaimPolicy) }
  abbrev pub pvc_calls : List (PersistentVolumeClaim K) → String → Calls K
  pvc_calls pvcs reclaim_policy =
      map (λ pvc. returned (create_or_update_pvc pvc reclaim_policy)) pvcs

  abbrev pub stateful_set_call : Outcome (StatefulSet K) → Outcome (List (Request K))
  stateful_set_call panicked = panicked
  stateful_set_call (returned s) = returned (create_or_update_stateful_set s)

  abbrev pub stateful_set_calls : Outcome (List (StatefulSet K)) → Calls K
  stateful_set_calls panicked = panicked ∷ []
  stateful_set_calls (returned l) = map (λ s. returned (create_or_update_stateful_set s)) l

  -- Lines 173 and 174.
  unfoldable pub scc_calls : Telemetry K → List (Request K)
  unfolding openshift_scc_role
  scc_calls cr =
      append (create_or_update_role (openshift_scc_role K cr scc_nonroot))
        (create_or_update_role (openshift_scc_role K cr scc_privileged))

  -- Lines 179 to 185.
  unfoldable pub agent_calls : Telemetry K → Calls K
  unfolding create_or_update_service_account cluster_agent_cluster_role
      cluster_agent_cluster_role_binding cluster_agent_deployment node_agent_daemon_set
  agent_calls cr =
      returned (create_or_update_service_account K cr "node-agent" scc_privileged)
      ∷ returned
          (create_or_update_daemon_set (node_agent_daemon_set K env.versions env.registry cr))
      ∷ returned (create_or_update_service_account K cr "cluster-agent" scc_nonroot)
      ∷ returned
          (create_or_update_cluster_role (cluster_agent_cluster_role K env.deny_global_secrets cr))
      ∷ returned (create_or_update_cluster_role_binding (cluster_agent_cluster_role_binding K cr))
      ∷ returned
          (create_or_update_deployment (cluster_agent_deployment K env.versions env.registry cr))
      ∷ []

  -- Lines 192 to 199.
  unfoldable pub server_calls : Telemetry K → ConfigEnvs → Calls K
  unfolding create_or_update_service_account telemetry_pvcs telemetry_config_map
      telemetry_stateful_set telemetry_service
  server_calls cr config_envs =
      let (config_map, config_hash) = telemetry_config_map K env.marshal cr in
      returned (create_or_update_service_account K cr "telemetry" scc_nonroot)
      ∷ append (pvc_calls (telemetry_pvcs K cr) cr.spec.storage.reclaim_policy) (
          returned (create_or_update_config_map config_map)
          ∷ stateful_set_call
              (telemetry_stateful_set K env.versions env.registry cr config_envs config_hash)
          ∷ returned (create_or_update_service (telemetry_service K cr))
          ∷ [])

  -- Lines 200 to 204.
  unfoldable pub front_calls : Telemetry K → Bool → Calls K
  unfolding telemetry_deployment create_or_update_ingress
  front_calls cr deployment_deleted =
      returned
        (if deployment_deleted then [] else delete (deployment (telemetry_deployment K cr)) ∷ [])
      ∷ returned
          (create_or_update_ingress K env.ingress_api_version cr (not (is_some cr.spec.ingress)))
      ∷ []

  abbrev pub prometheus_block : Telemetry K → Calls K
  prometheus_block cr =
      returned (create_or_update_service_account K cr "prometheus" scc_nonroot)
      ∷ returned
          (create_or_update_pvc (prometheus_pvc K cr) cr.spec.prometheus.storage.reclaim_policy)
      ∷ returned
          (create_or_update_deployment (prometheus_deployment K env.versions env.registry cr))
      ∷ returned (create_or_update_service (prometheus_service K cr))
      ∷ []

  -- Lines 206 to 213.
  unfoldable pub prometheus_calls : Telemetry K → Calls K
  unfolding create_or_update_service_account prometheus_pvc prometheus_deployment prometheus_service
  prometheus_calls cr =
      if not (is_some cr.spec.external_prometheus) && not cr.spec.store_metrics_in_clickhouse
      then prometheus_block cr
      else []

  abbrev pub keeper_block : Telemetry K → Calls K
  keeper_block cr =
      returned (
        create_or_update_secret K cr (clickhouse_password_secret K cr).name
          ((clickhouse_password_secret K cr).key ∷ []) 16 false)
      ∷ returned (create_or_update_service_account K cr "clickhouse-keeper" scc_nonroot)
      ∷ returned (create_or_update_service (clickhouse_keeper_service_headless K cr))
      ∷ append
          (pvc_calls (clickhouse_keeper_pvcs K cr) cr.spec.clickhouse.keeper.storage.reclaim_policy)
          (stateful_set_call (clickhouse_keeper_stateful_set K env.versions env.registry cr) ∷ [])

  abbrev pub clickhouse_block : Telemetry K → Calls K
  clickhouse_block cr =
      returned (create_or_update_service_account K cr "clickhouse" scc_nonroot)
      ∷ returned (create_or_update_service (clickhouse_service_headless K cr))
      ∷ append (pvc_calls (clickhouse_pvcs K cr) cr.spec.clickhouse.storage.reclaim_policy) (
          append (stateful_set_calls (clickhouse_stateful_sets K env.versions env.registry cr))
            (returned (create_or_update_service (clickhouse_service K cr)) ∷ []))

  -- Lines 215 to 236.
  unfoldable pub clickhouse_calls : Telemetry K → Calls K
  unfolding create_or_update_secret create_or_update_service_account
      clickhouse_keeper_service_headless clickhouse_keeper_pvcs clickhouse_keeper_stateful_set
      clickhouse_service_headless clickhouse_pvcs clickhouse_stateful_sets clickhouse_service
  clickhouse_calls cr =
      if is_some cr.spec.external_clickhouse
      then []
      else append (keeper_block cr) (clickhouse_block cr)
