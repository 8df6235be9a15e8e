-- ===== src/Reconcile/Server.antt =====
-- The requests for the telemetry server: what they need has been asked for.
use Prim.Native.String.{◌++◌}
use text.Mathlib.TextLemmas.{append_assoc}
use mathlib.Core.Path.{subst}
use mathlib.Core.List.{Memᴰ}
use telemetry_operator.Base.{
  ◌≡◌, refl, sym, ap, ◌∙◌, ℕ, ◌<◌, String, false, not, ◌&&◌, Option, none, some, List, [], ◌∷◌,
  arith, rounds,
}
use telemetry_operator.Base.Predicates.{All}
use telemetry_operator.Base.Text.{show}
use telemetry_operator.Kube.{Kube, SecretKeySelector}
use telemetry_operator.Api.Telemetry.{Telemetry, TlsSpec}
use telemetry_operator.Objects.{PersistentVolumeClaim, StatefulSet, Volume}
use telemetry_operator.ConfigEnvs.{ConfigEnvs}
use telemetry_operator.Cluster as C
use telemetry_operator.Cluster.{History, create_or_update}
use telemetry_operator.Validate.{Outcome, returned, panicked}
use telemetry_operator.Validate.Returns.{did_return, has_selectors}
use telemetry_operator.Validate.Frame.{is_negative}
use telemetry_operator.Builders.Rights.{scc_nonroot}
use telemetry_operator.Builders.Labels.{one_if_zero}
use telemetry_operator.Builders.Front.{telemetry_pvcs}
use telemetry_operator.Builders.Config.{telemetry_config_map}
use telemetry_operator.Builders.Server.{
  tls_volume, tls_volumes, server_replicas, server_set, telemetry_stateful_set,
}
use telemetry_operator.Builders.Declared.{value_or, did_return-telemetry_stateful_set}
use telemetry_operator.Reconcile.Requests.{create_or_update_service_account}
use telemetry_operator.Reconcile.Calls.{Environment, ask, issue, pvc_calls, server_calls}
use telemetry_operator.Reconcile.Since.{Fits, Safe, Extends, issue-Extends, Safe-append}
use telemetry_operator.Reconcile.Ready.{
  Ready, ObjectReady, HasAccount, HasConfigMap, HasSource, HasClaim, keeps_account, keeps_claim,
}
use telemetry_operator.Reconcile.Agents.{HasRoles, service_account-Fits, service_account-HasAccount}
use telemetry_operator.Builders.Counting.{row-Memᴰ, rounds_le}
use telemetry_operator.Reconcile.Claims.{
  ordinal_name, pvc_calls-HasClaim, pvc_calls-Safe, stateful_set_call-Safe,
}

tls_volume-HasSource :
    {K : Kube} (h : History K) (namespace : String) (cert key : Option SecretKeySelector)
    (vs : List Volume)
    → tls_volume cert key ≡ returned vs
    → All (λ v. HasSource h namespace v.source) vs
tls_volume-HasSource h namespace none key vs e = cc
tls_volume-HasSource h namespace (some cert) none vs e = cc
tls_volume-HasSource h namespace (some cert) (some key) vs e =
    subst (All (λ v. HasSource h namespace v.source)) (ap (value_or vs) e) (tt, tt)

tls_volumes-HasSource :
    {K : Kube} (h : History K) (namespace : String) (t : Option TlsSpec) (vs : List Volume)
    → tls_volumes t ≡ returned vs
    → All (λ v. HasSource h namespace v.source) vs
tls_volumes-HasSource h namespace none vs e = let same : vs ≡ [] = cc in rw same tt
tls_volumes-HasSource h namespace (some t) vs e =
    tls_volume-HasSource h namespace t.cert_secret t.key_secret vs e

module _ (K : Kube) (env : Environment K) (cr : Telemetry K) where
  telemetry_pvcs-HasClaim :
      (policy : String) (h : History K) (i : ℕ)
      → is_negative cr.spec.replicas ≡ false
      → i < rounds (server_replicas cr.spec.replicas)
      → HasClaim
          (issue (pvc_calls K env (telemetry_pvcs K cr) policy) h).1
          cr.namespace
          ("data" ++ "-" ++ (cr.name ++ "-telemetry") ++ "-" ++ show i)
  unfolding telemetry_pvcs server_replicas
  telemetry_pvcs-HasClaim policy h i positive less =
      let joined : "data-" ++ cr.name ++ "-telemetry-" ++ show i
          ≡ "data" ++ "-" ++ (cr.name ++ "-telemetry") ++ "-" ++ show i =
        ap (λ t. "data-" ++ cr.name ++ t) (append_assoc "-telemetry" "-" (show i))
        ∙ ordinal_name cr.name "-telemetry" i in
      let present =
        row-Memᴰ _ (rounds (one_if_zero cr.spec.replicas)) i
          (let le = rounds_le cr.spec.replicas positive in omega arith) in
      subst (HasClaim (issue (pvc_calls K env (telemetry_pvcs K cr) policy) h).1 cr.namespace)
        joined (pvc_calls-HasClaim K env (telemetry_pvcs K cr) policy h _ present)

  server_set-Ready :
      (envs : ConfigEnvs) (hash : String) (h : History K) (s : StatefulSet K)
      (tls : Outcome (List Volume)) (claim : Outcome (PersistentVolumeClaim K))
      → tls_volumes cr.spec.tls ≡ tls
      → server_set K env.versions env.registry cr envs hash tls claim ≡ returned s
      → HasAccount h cr.namespace (cr.name ++ "-telemetry")
      → HasConfigMap h cr.namespace (cr.name ++ "-telemetry")
      → ((i : ℕ)
          → i < rounds (server_replicas cr.spec.replicas)
          → HasClaim h cr.namespace ("data" ++ "-" ++ (cr.name ++ "-telemetry") ++ "-" ++ show i))
      → ObjectReady (C.stateful_set s) h
  server_set-Ready envs hash h s panicked claim t e account config claims = cc
  server_set-Ready envs hash h s (returned tls) panicked t e account config claims = cc
  server_set-Ready envs hash h s (returned tls) (returned claim) t e account config claims =
      subst (λ x. ObjectReady (C.stateful_set x) h) (ap (value_or s) e)
        (
          (account, (config, tls_volumes-HasSource h cr.namespace cr.spec.tls tls t)),
          λ i less. (claims i less, tt),
        )

  -- What the server's set needs, in the history at that point.
  telemetry_stateful_set-Ready :
      (envs : ConfigEnvs) (hash : String) (h : History K) (s : StatefulSet K)
      → telemetry_stateful_set K env.versions env.registry cr envs hash ≡ returned s
      → HasAccount h cr.namespace (cr.name ++ "-telemetry")
      → HasConfigMap h cr.namespace (cr.name ++ "-telemetry")
      → (is_negative cr.spec.replicas ≡ false
          → (i : ℕ) → i < rounds (server_replicas cr.spec.replicas)
          → HasClaim h cr.namespace ("data" ++ "-" ++ (cr.name ++ "-telemetry") ++ "-" ++ show i))
      → ObjectReady (C.stateful_set s) h
  unfolding telemetry_stateful_set
  telemetry_stateful_set-Ready envs hash h s e account config claims =
      let negative : did_return (returned s)
          ≡ (has_selectors cr.spec.tls && not (is_negative cr.spec.replicas)) =
        ap did_return (sym e)
        ∙ did_return-telemetry_stateful_set K env.versions env.registry cr envs hash in
      server_set-Ready envs hash h s _ _ refl e account config (claims (ground arith))

  pub server_calls-Safe :
      (envs : ConfigEnvs) (h : History K)
      → HasRoles K cr h
      → Safe Ready (server_calls K env cr envs) h
  unfolding server_calls Safe Fits telemetry_config_map
  server_calls-Safe envs h (nonroot, privileged) =
      let account = create_or_update_service_account K cr "telemetry" scc_nonroot in
      let pvcs = pvc_calls K env (telemetry_pvcs K cr) cr.spec.storage.reclaim_policy in
      let h1 = ask account h in
      let map_made = telemetry_config_map K env.marshal cr in
      let h3 : History K = create_or_update (C.config_map map_made.0) false ∷ (issue pvcs h1).1 in
      let after_account : Extends h1 h3 = λ r m. Memᴰ.tail (issue-Extends pvcs h1 r m) in
      (
        service_account-Fits K cr "telemetry" scc_nonroot h nonroot,
        Safe-append Ready pvcs _ h1 (pvc_calls-Safe K env _ cr.spec.storage.reclaim_policy h1) (
          (tt, tt),
          stateful_set_call-Safe K env Ready _ _ h3
              (λ s e.
                telemetry_stateful_set-Ready envs _ h3 s e
                  (keeps_account after_account _ _
                    (service_account-HasAccount K cr "telemetry" scc_nonroot h))
                  (map_made.0, Memᴰ.head refl, (refl, refl))
                  (λ positive i less.
                    keeps_claim (λ r m. Memᴰ.tail m) _ _
                      (telemetry_pvcs-HasClaim cr.spec.storage.reclaim_policy h1 i positive less)))
              (λ h'. ((tt, tt), tt)),
        ),
      )
