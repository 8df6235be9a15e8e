-- ===== src/Reconcile/Roles.antt =====
-- No resource that the reconciler knows of loses its cluster role.
use Prim.Native.String.{◌++◌}
use telemetry_operator.Base.{
  ◌≡◌, refl, sym, ap, ◌∙◌, String, true, List, [], ◌∷◌, arith, eq_refl, is_some, Option, none, some,
  if_intro,
}
use mathlib.Core.List.{◌++◌ as append}
use telemetry_operator.Reconcile.Requests.{create_or_update_service_account}
use telemetry_operator.Base.Predicates.{All}
use telemetry_operator.Kube.{Kube}
use telemetry_operator.Api.Telemetry.{Telemetry}
use telemetry_operator.Cluster as C
use telemetry_operator.Cluster.{
  Server, Request, History, Fetched, found, not_found, failed, create_or_update, delete,
  get_telemetry, get_secret, update_status,
}
use telemetry_operator.Validate.{Outcome, returned, panicked, validate_telemetry}
use telemetry_operator.Validate.Context.{Context}
use telemetry_operator.Validate.Returns.{did_return, has_selectors}
use telemetry_operator.Validate.Validated.{did_return-validate_telemetry}
use telemetry_operator.Validate.Frame.{validate_telemetry-frame}
use telemetry_operator.Builders.Access.{names}
use telemetry_operator.Builders.Rights.{cluster_agent_cluster_role}
use telemetry_operator.Reconcile.{Key, same_key, forget, track, delete_roles, reconcile_deleted}
use telemetry_operator.Reconcile.Calls.{Environment, ask, issue, agent_calls, scc_calls}
use telemetry_operator.Reconcile.Loop.{
  Reconciler, Run, settle, reconcile_validated, reconcile_found, reconcile_fetched, reconcile,
}
use telemetry_operator.Reconcile.Since.{Since, Since-base, Linked}
use telemetry_operator.Reconcile.Operator.{
  with_role, role_name, served, roles_after, State, Sound, Reachable, start, step, called,
  restarted, HasRole,
}
use telemetry_operator.Reconcile.Owned.{Owned, Deletable}
use telemetry_operator.Reconcile.Stays.{reconcile_stores-Owned, reconcile_found-Owned}

forget-All : (P : Key → Type 0) (req : Key) (l : List Key) → All P l → All P (forget req l)
unfolding forget
forget-All P req [] h = tt
forget-All P req (k ∷ l) (h, hs) =
    if_intro (All P) (same_key k req) (forget req l) (k ∷ forget req l) (λ _. forget-All P req l hs)
      (λ _. (h, forget-All P req l hs))

All-imp : {P Q : Key → Type 0} (l : List Key) → ((k : Key) → P k → Q k) → All P l → All Q l
All-imp [] f h = tt
All-imp (k ∷ l) f (h, hs) = (f k h, All-imp l f hs)

with_role-HasRole :
    (o : Option String) (roles : List String) (k : Key)
    → HasRole roles k
    → HasRole (with_role o roles) k
unfolding names
with_role-HasRole none roles k h = h
with_role-HasRole (some r) roles k h = ground (arith, h)

module _ {K : Kube} (cr : Telemetry K) where
  -- A reconciliation deletes no cluster role.
  Deletable-role_name : (object : C.Object K) → Deletable cr object → role_name object ≡ none
  Deletable-role_name (C.deployment d) h = refl
  Deletable-role_name (C.daemon_set d) h = refl
  Deletable-role_name (C.stateful_set s) h = refl
  Deletable-role_name (C.service s) h = refl
  Deletable-role_name (C.claim c) h = refl
  Deletable-role_name (C.config_map m) h = refl
  Deletable-role_name (C.secret meta keys length) h = refl
  Deletable-role_name (C.service_account a) h = refl
  Deletable-role_name (C.role r) h = refl
  Deletable-role_name (C.role_binding b) h = refl
  Deletable-role_name (C.cluster_role r) h = absurd h
  Deletable-role_name (C.cluster_role_binding b) h = refl
  Deletable-role_name (C.ingress_v1 i) h = refl
  Deletable-role_name (C.ingress_v1beta1 i) h = refl

  served-HasRole :
      (q : Request K) (h : History K) (roles : List String) (k : Key)
      → Owned cr q h
      → HasRole roles k
      → HasRole (served q roles) k
  served-HasRole (get_telemetry space name) h roles k o there = there
  served-HasRole (get_secret space name) h roles k o there = there
  served-HasRole (create_or_update object retain) h roles k o there =
      with_role-HasRole (role_name object) roles k there
  served-HasRole (delete object) h roles k o there = rw (Deletable-role_name object o) there
  served-HasRole (update_status space name status) h roles k o there = there

  Linked-HasRole :
      (roles : List String) (base l : List (Request K)) (k : Key)
      → Linked (Owned cr) base l
      → HasRole (roles_after roles base) k
      → HasRole (roles_after roles (append l base)) k
  unfolding Linked roles_after
  Linked-HasRole roles base [] k linked there = there
  Linked-HasRole roles base (q ∷ l) k (o, linked) there =
      served-HasRole q (append l base) (roles_after roles (append l base)) k o
        (Linked-HasRole roles base l k linked there)

  -- The requests of a reconciliation leave the cluster roles that are there.
  Since-HasRole :
      (roles : List String) (base h : History K) (k : Key)
      → Since (Owned cr) base h
      → HasRole (roles_after roles base) k
      → HasRole (roles_after roles h) k
  Since-HasRole roles base h k (l, e, linked) there =
      rw e (Linked-HasRole roles base l k linked there)

module _ (K : Kube) (env : Environment K) (server : Server K) (roles : List String) where
  agent_calls-HasRole :
      (cr : Telemetry K) (h : History K)
      → HasRole (roles_after roles (issue (agent_calls K env cr) h).1) (cr.namespace, cr.name)
  unfolding agent_calls issue roles_after names cluster_agent_cluster_role
      create_or_update_service_account
  agent_calls-HasRole cr h = ground (arith, eq_refl (cr.name ++ "-cluster-agent"))

  reconcile_validated-HasRole :
      (cr : Telemetry K) (h : History K) (r : Reconciler) (v : Outcome (Telemetry K) × Context K)
      → validate_telemetry server cr [] h ≡ v
      → did_return v.0 ≡ true
      → HasRole
          (roles_after roles (reconcile_validated K env server cr r v).history)
          (cr.namespace, cr.name)
  unfolding roles_after
  reconcile_validated-HasRole cr h r (panicked, c) e d = cc
  reconcile_validated-HasRole cr h r (returned cr', c) e d =
      let frame = validate_telemetry-frame server cr cr' [] h (ap (λ v. v.0) e) in
      let name : cr.name ≡ cr'.name = sym (ap (λ x. x.name) frame) in
      let agents = issue (agent_calls K env cr') c.history in
      let there : HasRole (roles_after roles agents.1) (cr.namespace, cr.name) =
        rw name (agent_calls-HasRole cr' c.history) in
      if_intro {A = Run K} (λ run. HasRole (roles_after roles run.history) (cr.namespace, cr.name))
        (is_some cr'.spec.agents_only) _ _ (λ _. there)
        (λ _.
          Since-HasRole cr' roles agents.1 _ (cr.namespace, cr.name)
            (reconcile_stores-Owned K env server agents.1 cr' c r agents
              (Since-base (Owned cr') agents.1))
            there)

  settle-instances :
      (cr : Telemetry K) (errors : List String) (r : Reconciler)
      (out : Outcome (Unit {0}) × History K)
      → (settle K env server cr errors r out).reconciler.instances ≡ r.instances
  settle-instances cr errors r (panicked, h) = refl
  settle-instances cr errors r (returned done, h) = refl

  reconcile_validated-instances :
      (cr : Telemetry K) (r : Reconciler) (v : Outcome (Telemetry K) × Context K)
      → (reconcile_validated K env server cr r v).reconciler.instances ≡ r.instances
  reconcile_validated-instances cr r (panicked, c) = refl
  reconcile_validated-instances cr r (returned cr', c) =
      if_intro {A = Run K} (λ run. run.reconciler.instances ≡ r.instances)
        (is_some cr'.spec.agents_only) _ _ (λ _. refl) (λ _. settle-instances cr' c.errors _ _)

  abbrev AllServed : Run K → Type 0
  AllServed run = All (HasRole (roles_after roles run.history)) run.reconciler.instances

  -- Every instance has its role after the reconciliation of a resource that was found.
  reconcile_found-HasRole :
      (cr : Telemetry K) (r : Reconciler) (h : History K)
      → has_selectors cr.spec.tls ≡ true
      → All (HasRole (roles_after roles h)) r.instances
      → AllServed (
          reconcile_found K env server cr
            (record r { instances = track (cr.namespace, cr.name) r.instances })
            h)
  unfolding reconcile_found track
  reconcile_found-HasRole cr r h given kept =
      let req : Key = (cr.namespace, cr.name) in
      let r' : Reconciler = record r { instances = track req r.instances } in
      let before = ask (scc_calls K env cr) h in
      let run = reconcile_found K env server cr r' h in
      let returns = did_return-validate_telemetry server cr [] before ∙ given in
      let others = forget-All (HasRole (roles_after roles h)) req r.instances kept in
      rw (reconcile_validated-instances cr r' (validate_telemetry server cr [] before)) (
        reconcile_validated-HasRole cr before r' (validate_telemetry server cr [] before) refl
            returns,
        All-imp (forget req r.instances)
            (λ k there.
              Since-HasRole cr roles h run.history k (reconcile_found-Owned K env server cr r' h)
                there)
            others,
      )

  -- The same after a deletion: the roles go with the last instance alone.
  delete_roles-HasRole :
      (deny : String) (req : Key) (left : List Key) (h : History K)
      → All (HasRole (roles_after roles h)) left
      → All (HasRole (roles_after roles (ask (delete_roles K deny req left) h))) left
  delete_roles-HasRole deny req [] h kept = tt
  delete_roles-HasRole deny req (k ∷ left) h kept = kept

  reconcile_fetched-HasRole :
      (req : Key) (r : Reconciler) (h : History K) (reply : Fetched K)
      → Sound req reply
      → All (HasRole (roles_after roles h)) r.instances
      → AllServed (reconcile_fetched K env server req r h reply)
  unfolding reconcile_deleted
  reconcile_fetched-HasRole req r h (found cr) (namespace, name, given) kept =
      let same : req ≡ (cr.namespace, cr.name) = cc in
      rw same (reconcile_found-HasRole cr r h given kept)
  reconcile_fetched-HasRole req r h not_found sound kept =
      delete_roles-HasRole env.deny_global_secrets req (forget req r.instances) h
        (forget-All (HasRole (roles_after roles h)) req r.instances kept)
  reconcile_fetched-HasRole req r h (failed e) sound kept = kept

-- Whatever cluster roles there are at the start: after every sequence of calls of Reconcile and
-- restarts of the operator, each instance that the reconciler knows of has the cluster role of its
-- cluster agent, so the deletion of one resource never takes the role from another one that is known,
-- not even where two resources of one name in different namespaces share it. The server does what it
-- is asked for, and replies with the resource that is asked for; and the TLS section of each resource
-- found, if there is one, names both secrets (or validateTelemetry panics before it asks for the role).
pub Reachable-HasRole :
    (K : Kube) (roles : List String) (s : State K)
    → Reachable K s
    → All (HasRole (roles_after roles s.history)) s.reconciler.instances
unfolding reconcile roles_after
Reachable-HasRole K roles s start = tt
Reachable-HasRole K roles t (step r (called env server req s sound)) =
    reconcile_fetched-HasRole K env server roles req s.reconciler
      (get_telemetry req.0 req.1 ∷ s.history) (server.telemetry s.history req.0 req.1) sound
      (Reachable-HasRole K roles s r)
Reachable-HasRole K roles t (step r (restarted s)) = tt
