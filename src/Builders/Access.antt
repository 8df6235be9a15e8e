-- ===== src/Builders/Access.antt =====
-- The bindings refer to the roles and the service accounts that are there, and the cluster agent
-- may only read.
use telemetry_operator.Base.{
  ◌≡◌, refl, String, Bool, true, false, List, [], ◌∷◌, if◌then◌else◌, ◌==◌, ◌||◌, ◌&&◌,
}
use telemetry_operator.Kube.{Kube}
use telemetry_operator.Api.Telemetry.{Telemetry}
use telemetry_operator.Objects.{ServiceAccount, PolicyRule, Subject, RoleBinding}
use telemetry_operator.Builders.Rights.{
  openshift_scc_role, openshift_scc_role_binding, service_account,
  cluster_agent_cluster_role_binding, cluster_agent_cluster_role,
}

-- A service account as the subject of a binding.
abbrev pub subject_of : ServiceAccount → Subject
subject_of a = record { kind = "ServiceAccount"; name = a.meta.name; namespace = a.meta.namespace }

-- A binding gives one role to one service account, and to nobody else.
abbrev pub Binds : RoleBinding → String → String → ServiceAccount → Type 0
Binds b kind role a =
    (b.role_ref.api_group ≡ "rbac.authorization.k8s.io")
    × (b.role_ref.kind ≡ kind)
    × (b.role_ref.name ≡ role)
    × (b.subjects ≡ subject_of a ∷ [])

-- The binding of a component gives the role of its security context constraint, which stands in the
-- same namespace, to the service account of the component and to no other subject; and the binding
-- of the cluster agent gives the cluster role to the cluster agent's account alone.
pub role_bindings-Binds :
    (K : Kube) (deny : String) (cr : Telemetry K) (component scc : String)
    → Binds
        (openshift_scc_role_binding K cr component scc)
        "Role"
        (openshift_scc_role K cr scc).meta.name
        (service_account K cr component)
      × ((openshift_scc_role_binding K cr component scc).meta.namespace
          ≡ (openshift_scc_role K cr scc).meta.namespace)
      × Binds
          (cluster_agent_cluster_role_binding K cr)
          "ClusterRole"
          (cluster_agent_cluster_role K deny cr).meta.name
          (service_account K cr "cluster-agent")
unfolding openshift_scc_role openshift_scc_role_binding service_account
    cluster_agent_cluster_role_binding cluster_agent_cluster_role
role_bindings-Binds K deny cr component scc =
    ((refl, refl, refl, refl), refl, (refl, refl, refl, refl))

-- Whether a rule names a resource.
unfoldable pub names : String → List String → Bool
names r [] = false
names r (s ∷ l) = let rest = names r l in if s == r then true else rest

-- Whether a list of a rule covers a name: "*" covers all.
abbrev pub covers : String → List String → Bool
covers r l = names r l || names "*" l

-- Whether the names of a rule cover an object: a rule without names is for all.
abbrev pub covers_object : String → List String → Bool
covers_object name [] = true
covers_object name (n ∷ l) = names name (n ∷ l)

-- Whether one of the rules allows a verb on a resource of a group, for the object of a name.
unfoldable pub allows : String → String → String → String → List PolicyRule → Bool
unfolding names
allows verb group resource name [] = false
allows verb group resource name (rule ∷ rules) =
    (covers verb rule.verbs
      && covers group rule.api_groups
      && covers resource rule.resources
      && covers_object name rule.resource_names)
    || allows verb group resource name rules
