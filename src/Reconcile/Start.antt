-- ===== src/Reconcile/Start.antt =====
-- controller/controller.go: detectIngressAPIVersion, and what NewTelemetryReconciler starts with and
-- does at every tick of its clock, once it has fetched the versions.
use telemetry_operator.Base.{◌≡◌, refl, String, false, List, [], ◌∷◌, ◌==◌, if◌then◌else◌}
use telemetry_operator.Kube.{Kube}
use telemetry_operator.Cluster.{Server, Result, ok, err}
use telemetry_operator.Validate.{returned, panicked}
use telemetry_operator.Reconcile.{Key}
use telemetry_operator.Reconcile.Calls.{Environment}
use telemetry_operator.Reconcile.Loop.{Reconciler, Run, reconcile}

-- The loop over the kinds of networking.k8s.io/v1.
unfoldable pub version_for : List String → String
version_for [] = "networking.k8s.io/v1beta1"
version_for (kind ∷ kinds) =
    let rest = version_for kinds in if kind == "Ingress" then "networking.k8s.io/v1" else rest

-- detectIngressAPIVersion, from what making the client and asking it for the kinds returns.
abbrev pub detect_ingress_api_version : Result (Result (List String)) → String
detect_ingress_api_version (err e) = "networking.k8s.io/v1beta1"
detect_ingress_api_version (ok (err e)) = "networking.k8s.io/v1beta1"
detect_ingress_api_version (ok (ok kinds)) = version_for kinds

abbrev pub new_reconciler : Reconciler
new_reconciler = record { instances = []; deployment_deleted = false }

module _ (K : Kube) (env : Environment K) (server : Server K) where
  -- The rest of the loop, unless the run has panicked, which nothing recovers here.
  abbrev pub unless_panicked : Run K → Run K → Run K
  unless_panicked run rest = elim run.reply [ panicked ↦ run | returned reply ↦ rest ]

  -- The loop over the instances at a tick; `last` is the run before.
  unfoldable pub refresh : List Key → Run K → Run K
  unfolding reconcile
  refresh [] last = last
  refresh (req ∷ instances) last =
      let run = reconcile K env server req last.reconciler last.history in
      let rest = refresh instances run in unless_panicked run rest

detected :
    detect_ingress_api_version (ok (ok ("NetworkPolicy" ∷ "Ingress" ∷ []))) ≡ "networking.k8s.io/v1"
unfolding version_for
detected = refl
