-- ===== src/Apply.antt =====
-- controller/controller.go: what the CreateOrUpdate functions ask for, given the object that the
-- cluster has: the mutations before MergeSpecs.
pub mod Merge
pub mod Keeps
pub mod Annotations
pub mod Aliasing
pub mod Generated
use telemetry_operator.Base.{
  ℤ, String, Bool, not, ◌&&◌, Option, none, some, List, [], ◌∷◌, is_zero_ℤ, if◌then◌else◌, map,
}
use telemetry_operator.Base.Map.{lookup, insert}
use telemetry_operator.Kube.{Kube}
use telemetry_operator.Objects.{ServicePort, ClaimSpec}

-- The specification that CreateOrUpdatePVC merges: the storage is the current one if that is
-- larger.
unfoldable pub claim_target : (K : Kube) → ClaimSpec K → ClaimSpec K → ClaimSpec K
claim_target K current target =
    if not (K.is_zero current.storage) && K.cmp_gt current.storage target.storage
    then record target { storage = current.storage }
    else target

-- The node ports that the cluster has allocated, by the names of the ports; of two ports of one name
-- the later counts.
unfoldable pub existing_node_ports : List ServicePort → List (String × ℤ) → List (String × ℤ)
existing_node_ports [] found = found
existing_node_ports (p ∷ ports) found =
    existing_node_ports ports
      (if is_zero_ℤ p.node_port then found else insert p.name p.node_port found)

abbrev pub keep_node_port : List (String × ℤ) → ServicePort → ServicePort
keep_node_port existing p =
    if is_zero_ℤ p.node_port
    then elim (lookup p.name existing) [ none ↦ p | some n ↦ record p { node_port = n } ]
    else p

-- The ports that CreateOrUpdateService sets.
unfoldable pub service_target : List ServicePort → List ServicePort → List ServicePort
unfolding existing_node_ports
service_target current target = map (keep_node_port (existing_node_ports current [])) target
