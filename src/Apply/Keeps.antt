-- ===== src/Apply/Keeps.antt =====
-- What an update keeps of the object in the cluster.
use telemetry_operator.Base.{
  ◌≡◌, refl, ap, ℤ, String, Bool, true, false, not, ◌&&◌, ◌||◌, Option, none, some, List, [], ◌∷◌,
  is_zero_ℤ, arith, if◌then◌else◌, map, ◌==◌,
}
use telemetry_operator.Base.Map.{lookup, insert, lookup-insert}
use telemetry_operator.Kube.{Kube}
use telemetry_operator.Objects.{ServicePort, ClaimSpec}
use telemetry_operator.Apply.{claim_target, existing_node_ports, keep_node_port, service_target}

-- Quantity's Cmp is a total order: what the code relies on.
pub record IsCompare (K : Kube) : Type 0 where
  pub ge_refl : (q : K.Quantity) → K.cmp_ge q q ≡ true
  pub ge_of_gt : (a b : K.Quantity) → K.cmp_gt a b ≡ true → K.cmp_ge a b ≡ true
  pub ge_of_not_gt : (a b : K.Quantity) → K.cmp_gt a b ≡ false → K.cmp_ge b a ≡ true

-- An update of a claim never asks for less storage than the cluster's claim has (unless that has
-- none), nor for less than the custom resource says; the access
-- modes and the storage class are the custom resource's. (Cmp orders the quantities.)
pub claim_target-never_shrinks :
    (K : Kube) (order : IsCompare K) (current target : ClaimSpec K)
    → ((K.is_zero current.storage
          || K.cmp_ge (claim_target K current target).storage current.storage)
        ≡ true)
      × (K.cmp_ge (claim_target K current target).storage target.storage ≡ true)
      × ((claim_target K current target).storage_class_name ≡ target.storage_class_name)
      × ((claim_target K current target).access_modes ≡ target.access_modes)
unfolding claim_target
claim_target-never_shrinks K order current target = ground (
  arith,
  order.ge_refl target.storage,
  order.ge_refl current.storage,
  order.ge_of_gt current.storage target.storage,
  order.ge_of_not_gt current.storage target.storage,
)

-- The node port of the last port of a name that has one.
abbrev pub allocated : String → List ServicePort → Option ℤ
allocated name [] = none
allocated name (p ∷ ports) = elim (allocated name ports) [
  | none ↦ if p.name == name && not (is_zero_ℤ p.node_port) then some p.node_port else none
  | some n ↦ some n
]

abbrev pub or_else : Option ℤ → Option ℤ → Option ℤ
or_else none b = b
or_else (some n) b = some n

existing_lem :
    (name : String) (ports : List ServicePort) (found : List (String × ℤ))
    → lookup name (existing_node_ports ports found)
      ≡ or_else (allocated name ports) (lookup name found)
unfolding existing_node_ports
existing_lem name [] found = refl
existing_lem name (p ∷ ports) found = ground (
  arith,
  existing_lem name ports found,
  existing_lem name ports (insert p.name p.node_port found),
  lookup-insert p.name name p.node_port found,
)

-- A port with the node port that was allocated to its name, if it names none itself.
abbrev pub with_allocated : List ServicePort → ServicePort → ServicePort
with_allocated current p = record p {
  node_port =
      if is_zero_ℤ p.node_port
      then (elim (allocated p.name current) [ none ↦ p.node_port | some n ↦ n ])
      else p.node_port;
}

kept_cases :
    (free : Bool) (o : Option ℤ) (p : ServicePort)
    → (if free then (elim o [ none ↦ p | some n ↦ record p { node_port = n } ]) else p) ≡ record p {
      node_port = if free then (elim o [ none ↦ p.node_port | some n ↦ n ]) else p.node_port;
    }
kept_cases true none p = refl
kept_cases true (some n) p = refl
kept_cases false o p = refl

or_else-none : (o : Option ℤ) → or_else o none ≡ o
or_else-none none = refl
or_else-none (some n) = refl

keep_node_port_lem :
    (current : List ServicePort) (p : ServicePort)
    → keep_node_port (existing_node_ports current []) p ≡ with_allocated current p
unfolding lookup
keep_node_port_lem current p =
    rw (existing_lem p.name current [], or_else-none (allocated p.name current))
      (kept_cases (is_zero_ℤ p.node_port) (allocated p.name current) p)

-- An update of a service sets the custom resource's ports, each with the node port that the cluster
-- has allocated to the last port of its name, unless the custom resource names a node port.
pub service_target-with_allocated :
    (current target : List ServicePort)
    → service_target current target ≡ map (with_allocated current) target
unfolding service_target
service_target-with_allocated current [] = refl
service_target-with_allocated current (p ∷ target) =
    rw (keep_node_port_lem current p)
      (ap (λ l. with_allocated current p ∷ l) (service_target-with_allocated current target))
