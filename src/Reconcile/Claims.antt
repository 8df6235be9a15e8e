-- ===== src/Reconcile/Claims.antt =====
-- The claims that a stateful set's pods look for are among those that were asked for.
use Prim.Native.String.{◌++◌}
use text.Mathlib.TextLemmas.{append_assoc}
use mathlib.Core.List.{Memᴰ}
use telemetry_operator.Base.{◌≡◌, refl, ℕ, String, false, List, ◌∷◌, ◌==◌}
use telemetry_operator.Base.Text.{show}
use telemetry_operator.Kube.{Kube}
use telemetry_operator.Objects.{PersistentVolumeClaim, StatefulSet}
use telemetry_operator.Cluster as C
use telemetry_operator.Cluster.{History, create_or_update}
use telemetry_operator.Validate.{Outcome, returned, panicked}
use telemetry_operator.Reconcile.Calls.{Environment, Calls, issue, pvc_calls, stateful_set_call}
use telemetry_operator.Reconcile.Since.{Relation, issue-Memᴰ, Fits, Safe, Safe-map}
use telemetry_operator.Reconcile.Ready.{Ready, HasClaim}

-- What the i-th pod of a set calls its claim of the template "data".
pub ordinal_name :
    (name suffix : String) (i : ℕ)
    → "data-" ++ name ++ suffix ++ "-" ++ show i
      ≡ "data" ++ "-" ++ (name ++ suffix) ++ "-" ++ show i
ordinal_name name suffix i =
    rw (append_assoc name suffix ("-" ++ show i))
      (append_assoc "data" "-" (name ++ suffix ++ "-" ++ show i))

module _ (K : Kube) (env : Environment K) where
  -- A claim of the list that is asked for.
  pub pvc_calls-HasClaim :
      (pvcs : List (PersistentVolumeClaim K)) (policy : String) (h : History K)
      (c : PersistentVolumeClaim K)
      → Memᴰ c pvcs
      → HasClaim (issue (pvc_calls K env pvcs policy) h).1 c.meta.namespace c.meta.name
  pvc_calls-HasClaim pvcs policy h c m = (
    c,
    policy == "Retain",
    issue-Memᴰ (λ pvc. create_or_update (C.claim pvc) (policy == "Retain")) pvcs h c m,
    (refl, refl),
  )

  pub pvc_calls-Safe :
      (pvcs : List (PersistentVolumeClaim K)) (policy : String) (h : History K)
      → Safe Ready (pvc_calls K env pvcs policy) h
  pvc_calls-Safe pvcs policy h =
      Safe-map Ready (λ pvc. create_or_update (C.claim pvc) (policy == "Retain")) pvcs h
        (λ a m h' x. tt)

  -- What holds of the stateful set where it could be built.
  pub stateful_set_call-Safe :
      (R : Relation K) (o : Outcome (StatefulSet K)) (rest : Calls K) (h : History K)
      → ((s : StatefulSet K) → o ≡ returned s → R (create_or_update (C.stateful_set s) false) h)
      → ((h' : History K) → Safe R rest h')
      → Safe R (stateful_set_call K env o ∷ rest) h
  unfolding Safe Fits
  stateful_set_call-Safe R panicked rest h f g = tt
  stateful_set_call-Safe R (returned s) rest h f g = ((f s refl, tt), g _)
