-- ===== src/Builders/Rights.antt =====
-- controller/{cluster_agent,openshift}.go: the roles of the cluster agent and of the service
-- accounts. DENY_GLOBAL_SECRETS, a variable of the operator's environment, is an argument.
use Prim.Native.Nat.{ℕ, ◌+◌}
use Prim.Native.Char.{code}
use Prim.Native.String as S
use Prim.Native.String.{◌++◌}
use telemetry_operator.Base.{
  String, Bool, true, false, ◌&&◌, List, [], ◌∷◌, leb, eqb, if◌then◌else◌,
}
use telemetry_operator.Kube.{Kube}
use telemetry_operator.Api.Telemetry.{Telemetry}
use telemetry_operator.Objects.{ObjectMeta, ServiceAccount, PolicyRule, Role, RoleBinding}
use telemetry_operator.Builders.Labels.{labels, meta_of}

abbrev pub scc_nonroot : String
scc_nonroot = "nonroot"

abbrev pub scc_privileged : String
scc_privileged = "privileged"

abbrev pub rbac_group : String
rbac_group = "rbac.authorization.k8s.io"

-- openshiftSCCRole
unfoldable pub openshift_scc_role : (K : Kube) → Telemetry K → String → Role
openshift_scc_role K cr scc = record {
  meta = meta_of K cr (cr.name ++ "-" ++ scc) "roles";
  rules =
      record {
        api_groups = "security.openshift.io" ∷ [];
        resources = "securitycontextconstraints" ∷ [];
        resource_names = scc ∷ [];
        verbs = "use" ∷ [];
      }
      ∷ [];
}

-- openshiftSCCRoleBinding
unfoldable pub openshift_scc_role_binding : (K : Kube) → Telemetry K → String → String → RoleBinding
openshift_scc_role_binding K cr component scc = record {
  meta = meta_of K cr (cr.name ++ "-" ++ component ++ "-" ++ scc) component;
  subjects =
      record {
        kind = "ServiceAccount";
        name = cr.name ++ "-" ++ component;
        namespace = cr.namespace;
      }
      ∷ [];
  role_ref = record { api_group = rbac_group; kind = "Role"; name = cr.name ++ "-" ++ scc };
}

-- The service account that CreateOrUpdateServiceAccount names.
unfoldable pub service_account : (K : Kube) → Telemetry K → String → ServiceAccount
service_account K cr component = record {
  meta = meta_of K cr (cr.name ++ "-" ++ component) component;
}

-- The metadata of an object of the whole cluster.
abbrev pub cluster_meta : (K : Kube) → Telemetry K → ObjectMeta
cluster_meta K cr = record {
  name = cr.name ++ "-cluster-agent";
  namespace = "";
  labels = labels K cr "telemetry-cluster-agent";
  annotations = [];
}

-- clusterAgentClusterRoleBinding
unfoldable pub cluster_agent_cluster_role_binding : (K : Kube) → Telemetry K → RoleBinding
cluster_agent_cluster_role_binding K cr = record {
  meta = cluster_meta K cr;
  subjects =
      record {
        kind = "ServiceAccount";
        name = cr.name ++ "-cluster-agent";
        namespace = cr.namespace;
      }
      ∷ [];
  role_ref = record {
    api_group = rbac_group;
    kind = "ClusterRole";
    name = cr.name ++ "-cluster-agent";
  };
}

-- A code point, with that of the small letter in place of a capital of ASCII.
abbrev lower_code : ℕ → ℕ
lower_code n = if leb b'A' n && leb n b'Z' then n + 32 else n

-- strings.EqualFold(s, t), where t has no letter with a fold outside of ASCII (k and s have one)
unfoldable pub equal_fold : String → String → Bool
equal_fold S.[] S.[] = true
equal_fold S.[] (S.◌∷◌ d t) = false
equal_fold (S.◌∷◌ c s) S.[] = false
equal_fold (S.◌∷◌ c s) (S.◌∷◌ d t) =
    eqb (lower_code (code c)) (lower_code (code d)) && equal_fold s t

abbrev pub read_verbs : List String
read_verbs = "get" ∷ "list" ∷ "watch" ∷ []

abbrev pub read_rule : List String → List String → PolicyRule
read_rule api_groups resources = record {
  api_groups = api_groups;
  resources = resources;
  resource_names = [];
  verbs = read_verbs;
}

-- The resources of the core group.
abbrev pub core_resources : String → List String
core_resources deny_global_secrets =
    "namespaces"
    ∷ "nodes"
    ∷ "pods"
    ∷ "services"
    ∷ "endpoints"
    ∷ "persistentvolumeclaims"
    ∷ "persistentvolumes"
    ∷ "events"
    ∷ (if equal_fold deny_global_secrets "true" then [] else "secrets" ∷ [])

-- clusterAgentClusterRole
unfoldable pub cluster_agent_cluster_role : (K : Kube) → String → Telemetry K → Role
cluster_agent_cluster_role K deny_global_secrets cr = record {
  meta = cluster_meta K cr;
  rules =
      read_rule ("" ∷ []) (core_resources deny_global_secrets)
      ∷ read_rule ("apps" ∷ [])
          ("deployments" ∷ "replicasets" ∷ "daemonsets" ∷ "statefulsets" ∷ "cronjobs" ∷ [])
      ∷ read_rule ("batch" ∷ []) ("cronjobs" ∷ "jobs" ∷ [])
      ∷ read_rule ("storage.k8s.io" ∷ []) ("storageclasses" ∷ "volumeattachments" ∷ [])
      ∷ read_rule ("apiextensions.k8s.io" ∷ []) ("customresourcedefinitions" ∷ [])
      ∷ read_rule
          ("source.toolkit.fluxcd.io" ∷ "kustomize.toolkit.fluxcd.io" ∷ "helm.toolkit.fluxcd.io"
            ∷ "notification.toolkit.fluxcd.io" ∷ "image.toolkit.fluxcd.io"
            ∷ "fluxcd.controlplane.io" ∷ [])
          ("*" ∷ [])
      ∷ read_rule ("argoproj.io" ∷ []) ("applications" ∷ "applicationsets" ∷ "appprojects" ∷ [])
      ∷ read_rule ("postgresql.cnpg.io" ∷ []) ("clusters" ∷ "backups" ∷ "scheduledbackups" ∷ [])
      ∷ read_rule ("pgv2.percona.com" ∷ []) ("perconapgclusters" ∷ "perconapgbackups" ∷ [])
      ∷ [];
}
