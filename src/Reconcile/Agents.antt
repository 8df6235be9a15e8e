-- ===== src/Reconcile/Agents.antt =====
-- The requests for service accounts and for the agents: what they need has been asked for.
use Prim.Native.String.{◌++◌}
use mathlib.Core.List.{Memᴰ}
use telemetry_operator.Base.{refl, String, Option, none, some}
use telemetry_operator.Base.Predicates.{All}
use telemetry_operator.Kube.{Kube, SecretKeySelector}
use telemetry_operator.Api.Telemetry.{Telemetry}
use telemetry_operator.Cluster.{History}
use telemetry_operator.Builders.Rights.{
  scc_nonroot, scc_privileged, openshift_scc_role_binding, service_account,
  cluster_agent_cluster_role, cluster_agent_cluster_role_binding,
}
use telemetry_operator.Builders.Agents.{ca_volumes}
use telemetry_operator.Builders.AgentPods.{cluster_agent_deployment, node_agent_daemon_set}
use telemetry_operator.Reconcile.Requests.{create_or_update_service_account}
use telemetry_operator.Reconcile.Calls.{Environment, ask, agent_calls}
use telemetry_operator.Reconcile.Since.{Fits, Safe, Extends, ask-Extends}
use telemetry_operator.Reconcile.Ready.{Ready, HasAccount, HasRole, HasSource, keeps_role}

module _ (K : Kube) (cr : Telemetry K) where
  -- The roles of both security context constraints were asked for.
  abbrev pub HasRoles : History K → Type 0
  HasRoles h =
      HasRole h cr.namespace (cr.name ++ "-nonroot")
      × HasRole h cr.namespace (cr.name ++ "-privileged")

  pub Extends-HasRoles : (h h' : History K) → Extends h h' → HasRoles h → HasRoles h'
  Extends-HasRoles h h' x (nonroot, privileged) =
      (keeps_role x _ _ nonroot, keeps_role x _ _ privileged)

  pub service_account-Fits :
      (component scc : String) (h : History K)
      → HasRole h cr.namespace (cr.name ++ "-" ++ scc)
      → Fits Ready (create_or_update_service_account K cr component scc) h
  unfolding create_or_update_service_account service_account openshift_scc_role_binding Fits
  service_account-Fits component scc h (r, m, n) =
      let account : HasAccount _ cr.namespace (cr.name ++ "-" ++ component) =
        (service_account K cr component, Memᴰ.head refl, (refl, refl)) in
      (tt, (((account, tt), (r, Memᴰ.tail m, n)), tt))

  pub service_account-HasAccount :
      (component scc : String) (h : History K)
      → HasAccount
          (ask (create_or_update_service_account K cr component scc) h)
          cr.namespace
          (cr.name ++ "-" ++ component)
  unfolding create_or_update_service_account service_account
  service_account-HasAccount component scc h =
      (service_account K cr component, Memᴰ.tail (Memᴰ.head refl), (refl, refl))

  ca_volumes-HasSource :
      (h : History K) (s : Option SecretKeySelector)
      → All (λ v. HasSource h cr.namespace v.source) (ca_volumes K s)
  ca_volumes-HasSource h none = tt
  ca_volumes-HasSource h (some s) = (tt, tt)

  pub agent_calls-Safe :
      (env : Environment K) (h : History K) → HasRoles h → Safe Ready (agent_calls K env cr) h
  unfolding agent_calls Safe Fits service_account cluster_agent_deployment node_agent_daemon_set
      cluster_agent_cluster_role_binding cluster_agent_cluster_role
  agent_calls-Safe env h (nonroot, (privileged, asked, same)) =
      let node = create_or_update_service_account K cr "node-agent" scc_privileged in
      let (r, m, n) = nonroot in
      let cluster = service_account-HasAccount "cluster-agent" scc_nonroot _ in
      let (a, l, k) = cluster in
      (
        service_account-Fits "node-agent" scc_privileged h (privileged, asked, same),
        (
          (
            (
              service_account-HasAccount "node-agent" scc_privileged h,
              (tt, (tt, (tt, (tt, ca_volumes-HasSource _ _)))),
            ),
            tt,
          ),
          (
            service_account-Fits "cluster-agent" scc_nonroot _
                (r, Memᴰ.tail (ask-Extends node h _ m), n),
            (
              (tt, tt),
              (
                (
                  (
                    ((a, Memᴰ.tail l, k), tt),
                    (cluster_agent_cluster_role K env.deny_global_secrets cr, Memᴰ.head refl, refl),
                  ),
                  tt,
                ),
                ((((a, Memᴰ.tail (Memᴰ.tail l), k), (tt, ca_volumes-HasSource _ _)), tt), tt),
              ),
            ),
          ),
        ),
      )
