-- ===== src/Reconcile/Confined.antt =====
-- The calls of Reconcile ask for and delete only what belongs to the resource.
use telemetry_operator.Base.{
  ◌≡◌, refl, sym, ap, String, Bool, true, false, not, ◌&&◌, Option, none, some, is_some, List, [],
  ◌∷◌, if_intro, ◌==◌,
}
use telemetry_operator.Base.Predicates.{All, All-map, All-Memᴰ}
use telemetry_operator.Kube.{Kube}
use telemetry_operator.Api.Telemetry.{IngressSpec, Telemetry}
use telemetry_operator.Objects.{PersistentVolumeClaim, StatefulSet, Volume}
use telemetry_operator.ConfigEnvs.{ConfigEnvs}
use telemetry_operator.Cluster as C
use telemetry_operator.Cluster.{Object, History}
use telemetry_operator.Validate.{Outcome, returned, panicked}
use telemetry_operator.Builders.Rights.{
  openshift_scc_role_binding, service_account, cluster_agent_cluster_role,
  cluster_agent_cluster_role_binding,
}
use telemetry_operator.Builders.Front.{
  telemetry_ingress_v1, telemetry_ingress_v1_beta1, telemetry_service, telemetry_pvcs,
}
use telemetry_operator.Builders.Config.{telemetry_config_map, telemetry_deployment}
use telemetry_operator.Builders.AgentPods.{cluster_agent_deployment, node_agent_daemon_set}
use telemetry_operator.Builders.Metrics.{prometheus_deployment}
use telemetry_operator.Builders.Stores.{prometheus_pvc, prometheus_service}
use telemetry_operator.Builders.Declared.{value_or}
use telemetry_operator.Builders.Server.{server_set, telemetry_stateful_set}
use telemetry_operator.Reconcile.Requests.{
  create_or_update, create_or_update_config_map, create_or_update_service,
  create_or_update_service_account, create_or_update_ingress,
}
use telemetry_operator.Reconcile.Calls.{
  Environment, pvc_calls, stateful_set_call, agent_calls, server_calls, front_calls,
  prometheus_calls,
}
use telemetry_operator.Reconcile.Ready.{At}
use telemetry_operator.Reconcile.Since.{Fits, Safe, Safe-append, Safe-map}
use telemetry_operator.Reconcile.Claims.{stateful_set_call-Safe}
use telemetry_operator.Reconcile.Owned.{Here, Deletable, OwnedObject, Owned}

module _ (K : Kube) (env : Environment K) (cr : Telemetry K) where
  -- The claims of a loop stand in the resource's namespace.
  pub claims-Owned :
      (pvcs : List (PersistentVolumeClaim K)) (policy : String) (h : History K)
      → All (λ c. Here cr c.meta) pvcs
      → Safe (Owned cr) (pvc_calls K env pvcs policy) h
  claims-Owned pvcs policy h all =
      Safe-map (Owned cr) (λ pvc. C.create_or_update (C.claim pvc) (policy == "Retain")) pvcs h
        (λ c m h' x. All-Memᴰ (λ d. Here cr d.meta) pvcs c all m)

  pub agent_calls-Owned : (h : History K) → Safe (Owned cr) (agent_calls K env cr) h
  unfolding agent_calls Safe Fits create_or_update_service_account service_account
      openshift_scc_role_binding node_agent_daemon_set cluster_agent_deployment
      cluster_agent_cluster_role cluster_agent_cluster_role_binding
  agent_calls-Owned h = (
    ((refl, refl), ((refl, refl), tt)),
    (
      ((refl, refl), tt),
      (
        ((refl, refl), ((refl, refl), tt)),
        (((refl, refl), tt), (((refl, refl), tt), (((refl, refl), tt), tt))),
      ),
    ),
  )

  server_set-Here :
      (envs : ConfigEnvs) (hash : String) (tls : Outcome (List Volume))
      (claim : Outcome (PersistentVolumeClaim K)) (s : StatefulSet K)
      → server_set K env.versions env.registry cr envs hash tls claim ≡ returned s
      → Here cr s.meta
  server_set-Here envs hash panicked claim s e = cc
  server_set-Here envs hash (returned tls) panicked s e = cc
  server_set-Here envs hash (returned tls) (returned claim) s e =
      ap (λ o. (value_or s o).meta.namespace) (sym e)

  pub server_calls-Owned :
      (envs : ConfigEnvs) (h : History K) → Safe (Owned cr) (server_calls K env cr envs) h
  unfolding server_calls Safe Fits create_or_update_service_account service_account
      openshift_scc_role_binding telemetry_config_map telemetry_stateful_set telemetry_service
      telemetry_pvcs
  server_calls-Owned envs h =
      let (config_map, hash) = telemetry_config_map K env.marshal cr in
      let set = telemetry_stateful_set K env.versions env.registry cr envs hash in
      (
        ((refl, refl), ((refl, refl), tt)),
        Safe-append (Owned cr)
            (pvc_calls K env (telemetry_pvcs K cr) cr.spec.storage.reclaim_policy)
            (returned (create_or_update_config_map config_map)
              ∷ stateful_set_call K env set
              ∷ returned (create_or_update_service (telemetry_service K cr))
              ∷ [])
            _ (claims-Owned (telemetry_pvcs K cr) _ _ (All-map _ _ _ (λ i. refl)))
            (
              ((refl, refl), tt),
              stateful_set_call-Safe K env (Owned cr) set _ _
                  (λ s e. (server_set-Here envs hash _ _ s e, refl))
                  (λ h'. (((refl, refl), tt), tt)),
            ),
      )

  ingress-At :
      (i : Option IngressSpec)
      → cr.spec.ingress ≡ i
      → At (telemetry_ingress_v1 K cr).meta cr.namespace cr.name
        × At (telemetry_ingress_v1_beta1 K cr).meta cr.namespace cr.name
  unfolding telemetry_ingress_v1 telemetry_ingress_v1_beta1
  ingress-At none e = rw e ((refl, refl), (refl, refl))
  ingress-At (some i) e = rw e ((refl, refl), (refl, refl))

  wanted-Owned :
      (object : Object K) (h : History K) (b : Bool)
      → (b ≡ false → Deletable cr object)
      → OwnedObject cr object false
      → Fits (Owned cr) (create_or_update object (not b) false) h
  unfolding Fits
  wanted-Owned object h true f owned = (owned, tt)
  wanted-Owned object h false f owned = (f refl, tt)

  ingress-Owned :
      (h : History K)
      → Fits
          (Owned cr)
          (create_or_update_ingress K env.ingress_api_version cr (not (is_some cr.spec.ingress)))
          h
  unfolding create_or_update_ingress
  ingress-Owned h =
      let ((n, m), (k, l)) = ingress-At cr.spec.ingress refl in
      if_intro (λ t. Fits (Owned cr) t h) (env.ingress_api_version == "networking.k8s.io/v1") _ _
        (λ _.
          wanted-Owned (C.ingress_v1 (telemetry_ingress_v1 K cr)) h (is_some cr.spec.ingress)
            (λ e. ((n, m), e)) (n, refl))
        (λ _.
          wanted-Owned (C.ingress_v1beta1 (telemetry_ingress_v1_beta1 K cr)) h
            (is_some cr.spec.ingress) (λ e. ((k, l), e)) (k, refl))

  pub front_calls-Owned :
      (deleted : Bool) (h : History K) → Safe (Owned cr) (front_calls K env cr deleted) h
  unfolding front_calls telemetry_deployment Safe Fits
  front_calls-Owned true h = (tt, (ingress-Owned h, tt))
  front_calls-Owned false h = (((refl, refl), tt), (ingress-Owned _, tt))

  pub prometheus_calls-Owned : (h : History K) → Safe (Owned cr) (prometheus_calls K env cr) h
  unfolding prometheus_calls Safe Fits create_or_update_service_account service_account
      openshift_scc_role_binding prometheus_deployment prometheus_pvc prometheus_service
  prometheus_calls-Owned h =
      if_intro (λ l. Safe (Owned cr) l h)
        (not (is_some cr.spec.external_prometheus) && not cr.spec.store_metrics_in_clickhouse) _ _
        (λ _. (
          ((refl, refl), ((refl, refl), tt)),
          ((refl, tt), (((refl, refl), tt), (((refl, refl), tt), tt))),
        ))
        (λ _. tt)
