-- ===== src/Reconcile/Status.antt =====
-- When Reconcile comes to its end, and what it reports then.
use telemetry_operator.Base.{
  ℕ, ◌≡◌, refl, sym, ap, ◌∙◌, String, Bool, true, false, not, ◌&&◌, ◌||◌, Option, none, some,
  is_some, List, [], ◌∷◌, if◌then◌else◌, if_intro,
}
use telemetry_operator.Kube.{Kube}
use telemetry_operator.Api.Telemetry.{Telemetry, TelemetryStatus}
use telemetry_operator.Cluster.{History, Server, update_status}
use telemetry_operator.Validate.{Outcome, returned, panicked, validate_telemetry}
use telemetry_operator.Validate.Context.{Context}
use telemetry_operator.Validate.Returns.{did_return, has_selectors}
use telemetry_operator.Validate.Validated.{did_return-validate_telemetry}
use telemetry_operator.Validate.Frame.{
  is_negative, validate_telemetry-frame, validate_telemetry-negative, validate_telemetry-selectors,
}
use telemetry_operator.Reconcile.Calls.{Environment, ask, scc_calls}
use telemetry_operator.Reconcile.Loop.{
  Reconciler, Reply, Run, settle, reconcile_validated, reconcile_found,
}
use telemetry_operator.Reconcile.Returns.{validated_return, did_return-reconcile_validated}

abbrev pub is_empty : List String → Bool
is_empty [] = true
is_empty (e ∷ errors) = false

-- The request that was made last.
abbrev pub newest {ℓ} : {A : Type ℓ} → List A → Option A
newest [] = none
newest (r ∷ history) = some r

-- The seconds after which a call that returned wants to be called again.
abbrev pub requeue_of : Outcome Reply → Option ℕ
requeue_of panicked = none
requeue_of (returned reply) = some reply.requeue_after

-- The status that the validator's errors deserve.
abbrev pub judged : List String → TelemetryStatus
judged errors = record {
  status = if is_empty errors then "OK" else "Misconfigured";
  errors = errors;
}

module _ (K : Kube) (env : Environment K) (server : Server K) where
  -- What validateTelemetry returns and leaves in the run for a resource.
  abbrev pub validation : Telemetry K → History K → Outcome (Telemetry K) × Context K
  validation cr history = validate_telemetry server cr [] (ask (scc_calls K env cr) history)

  -- Whether the run returns, from the resource.
  abbrev pub found_return : Telemetry K → Bool
  found_return cr =
      has_selectors cr.spec.tls
      && (is_some cr.spec.agents_only
          || (not (is_negative cr.spec.replicas)
              && (is_some cr.spec.external_clickhouse
                  || (not (is_negative cr.spec.clickhouse.shards)
                      && not (is_negative cr.spec.clickhouse.replicas)))))

  validated_return-found_return :
      (cr : Telemetry K) (history : History K) (o : Outcome (Telemetry K))
      → (validation cr history).0 ≡ o
      → validated_return K env server o ≡ found_return cr
  validated_return-found_return cr history panicked e =
      let t = did_return-validate_telemetry server cr [] (ask (scc_calls K env cr) history) in
      let f : has_selectors cr.spec.tls ≡ false = sym t ∙ ap did_return e in rw f refl
  validated_return-found_return cr history (returned cr') e =
      let h = ask (scc_calls K env cr) history in
      let t = did_return-validate_telemetry server cr [] h in
      let given : has_selectors cr.spec.tls ≡ true = sym t ∙ ap did_return e in
      let kept = validate_telemetry-selectors server cr cr' [] h given e in
      let sign = validate_telemetry-negative server cr cr' [] h e in
      let frame = validate_telemetry-frame server cr cr' [] h e in
      rw (given, kept, sign, frame) refl

  -- A resource that is found is reconciled to the end, without a panic, exactly when its TLS
  -- section, if there is one, names both secrets and, unless only the agents are wanted, the number
  -- of the server's replicas is not negative, and, unless ClickHouse is external, neither are those
  -- of its shards and replicas.
  pub did_return-reconcile_found :
      (cr : Telemetry K) (reconciler : Reconciler) (history : History K)
      → did_return (reconcile_found K env server cr reconciler history).reply ≡ (
          has_selectors cr.spec.tls
          && (is_some cr.spec.agents_only
              || (not (is_negative cr.spec.replicas)
                  && (is_some cr.spec.external_clickhouse
                      || (not (is_negative cr.spec.clickhouse.shards)
                          && not (is_negative cr.spec.clickhouse.replicas))))))
  unfolding reconcile_found
  did_return-reconcile_found cr reconciler history =
      did_return-reconcile_validated K env server cr reconciler (validation cr history)
      ∙ validated_return-found_return cr history _ refl

  -- What a run reports: the status of the last request, and when it wants to be called again.
  abbrev pub Reports : Telemetry K → List String → Run K → Type 0
  Reports cr errors run =
      let complete = did_return run.reply && not (is_some cr.spec.agents_only) in
      (newest run.history
        ≡ some (update_status cr.namespace cr.name (if complete then judged errors else cr.status)))
      × (requeue_of run.reply ≡ (
          if did_return run.reply
          then some (if complete && not (is_empty errors) then 60 else 0)
          else none))

  settle-Reports :
      (cr : Telemetry K) (errors : List String) (r : Reconciler)
      (out : Outcome (Unit {0}) × History K)
      → is_some cr.spec.agents_only ≡ false
      → Reports cr errors (settle K env server cr errors r out)
  settle-Reports cr errors r (panicked, h) e = (refl, refl)
  settle-Reports cr [] r (returned done, h) e = rw e (refl, refl)
  settle-Reports cr (m ∷ errors) r (returned done, h) e = rw e (refl, refl)

  validated-Reports :
      (cr : Telemetry K) (c : Context K) (r : Reconciler)
      → Reports cr c.errors (reconcile_validated K env server cr r (returned cr, c))
  validated-Reports cr c r =
      if_intro (Reports cr c.errors) (is_some cr.spec.agents_only) _ _ (λ e. rw e (refl, refl))
        (λ e. settle-Reports cr c.errors _ _ e)

  found-Reports :
      (cr : Telemetry K) (r : Reconciler) (v : Outcome (Telemetry K) × Context K)
      (history : History K)
      → validation cr history ≡ v
      → Reports cr v.1.errors (reconcile_validated K env server cr r v)
  found-Reports cr r (panicked, c) history e = (refl, refl)
  found-Reports cr r (returned cr', c) history e =
      let frame = validate_telemetry-frame server cr cr' [] _ (ap (λ v. v.0) e) in
      let name : cr.name ≡ cr'.name = sym (ap (λ x. x.name) frame) in
      let namespace : cr.namespace ≡ cr'.namespace = sym (ap (λ x. x.namespace) frame) in
      let status : cr.status ≡ cr'.status = sym (ap (λ x. x.status) frame) in
      let agents : is_some cr.spec.agents_only ≡ is_some cr'.spec.agents_only =
        sym (ap (λ x. is_some x.spec.agents_only) frame) in
      rw (name, namespace, status, agents) (validated-Reports cr' c r)

  -- The last request of every run on a resource that was found, even of one that panics, updates its
  -- status. The status is that of the resource where the run panics or only the agents are wanted;
  -- otherwise it is "OK" or "Misconfigured", the latter exactly if validateTelemetry has found
  -- errors, with these errors; and only in the latter case a run that returns wants to be called
  -- again, after a minute.
  pub reconcile_found-Reports :
      (cr : Telemetry K) (reconciler : Reconciler) (history : History K)
      → Reports cr
          (validation cr history).1.errors
          (reconcile_found K env server cr reconciler history)
  unfolding reconcile_found
  reconcile_found-Reports cr reconciler history =
      found-Reports cr reconciler (validation cr history) history refl
