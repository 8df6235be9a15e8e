-- ===== src/Examples/Updates.antt =====
-- Updates of objects that the cluster has.
use telemetry_operator.Base.{
  ◌≡◌, refl, ℤ, pos, ◌||◌, String, Bool, true, false, none, some, [], ◌∷◌, ◌==◌, if◌then◌else◌,
  arith,
}
use telemetry_operator.Base.Map.{lookup, insert}
use telemetry_operator.Cluster.{ok}
use telemetry_operator.Objects.{ServicePort, ClaimSpec}
use telemetry_operator.Apply.{claim_target, service_target}
use telemetry_operator.Apply.Keeps.{
  IsCompare, claim_target-never_shrinks, service_target-with_allocated,
}
use telemetry_operator.Apply.Merge.{LastAppliedConfiguration, Tools, Maps, merge_specs}
use telemetry_operator.Apply.Annotations.{Encodes, merge_specs-annotation, next, merge_specs-twice}
use telemetry_operator.Apply.Aliasing.{both, merge_specs-loses_annotations}
use telemetry_operator.Base.{is_some}
use telemetry_operator.Base.Map.{lookup}
use telemetry_operator.Apply.Generated.{secret_target, secret_target-keeps}
use telemetry_operator.Examples.World.{kube}

kube-IsCompare : IsCompare kube
kube-IsCompare = record {
  ge_refl = λ q. ground arith;
  ge_of_gt = λ a b h. ground arith;
  ge_of_not_gt = λ a b h. ground arith;
}

abbrev claim_of_size : kube.Quantity → ClaimSpec kube
claim_of_size q = record {
  access_modes = "ReadWriteOnce" ∷ [];
  storage = q;
  storage_class_name = none;
}

claim_target-never_shrinks_example :
    ((kube.is_zero 20
        || kube.cmp_ge (claim_target kube (claim_of_size 20) (claim_of_size 10)).storage 20)
      ≡ true)
    × (kube.cmp_ge (claim_target kube (claim_of_size 20) (claim_of_size 10)).storage 10 ≡ true)
    × ((claim_target kube (claim_of_size 20) (claim_of_size 10)).storage_class_name ≡ none)
    × ((claim_target kube (claim_of_size 20) (claim_of_size 10)).access_modes
        ≡ "ReadWriteOnce" ∷ [])
claim_target-never_shrinks_example =
    claim_target-never_shrinks kube kube-IsCompare (claim_of_size 20) (claim_of_size 10)

abbrev port : String → ℤ → ServicePort
port name node_port = record {
  name = name;
  protocol = "TCP";
  port = pos 8080;
  target_port = name;
  node_port = node_port;
}

service_target-with_allocated_example :
    service_target (port "http" (pos 30080) ∷ []) (port "grpc" (pos 0) ∷ port "http" (pos 0) ∷ [])
    ≡ port "grpc" (pos 0) ∷ port "http" (pos 30080) ∷ []
service_target-with_allocated_example =
    service_target-with_allocated (port "http" (pos 30080) ∷ [])
      (port "grpc" (pos 0) ∷ port "http" (pos 0) ∷ [])

-- A codec for one configuration: what was applied is the annotation "a".
abbrev written : LastAppliedConfiguration
written = record { annotations = ("a", "1") ∷ []; spec = "spec" }

abbrev codec : Tools String
codec = record {
  marshal = λ spec. ok spec;
  unmarshal = λ text. ok text;
  encode = λ configuration. ok "configuration";
  decode = λ text. if text == "configuration" then some written else none;
  patch_meta_error = λ spec. none;
  three_way_patch = λ original target current. ok "{}";
  apply_patch = λ current patch. ok patch;
}

abbrev object : Maps
object = record { object = ("b", "2") ∷ []; target = ("a", "1") ∷ [] }

abbrev encodes : (shared : Bool) (m : Maps) → Encodes codec shared m "spec" "spec" "configuration"
encodes shared m = record {
  json_current = "spec";
  json_target = "spec";
  marshal_current = refl;
  marshal_target = refl;
  encode = refl;
}

merge_specs-annotation_example :
    lookup "a" (merge_specs codec false object "spec" "spec").0.object ≡ some "1"
unfolding lookup
merge_specs-annotation_example =
    merge_specs-annotation codec object "spec" "spec" "configuration" "a" (encodes false object)

merge_specs-twice_example :
    lookup "a" (merge_specs codec false (next codec object "spec" "spec" []) "spec" "spec").0.object
    ≡ none
unfolding lookup
merge_specs-twice_example =
    merge_specs-twice codec object "spec" "spec" "spec" "spec" [] "configuration" "configuration"
      "a" (encodes false object) refl (encodes false (next codec object "spec" "spec" [])) refl refl

merge_specs-loses_annotations_example :
    lookup "a"
      (merge_specs codec true
        (merge_specs codec true (both (("a", "1") ∷ [])) "spec" "spec").0
        "spec"
        "spec").0.object
    ≡ none
unfolding lookup insert
merge_specs-loses_annotations_example =
    merge_specs-loses_annotations codec (("a", "1") ∷ []) "spec" "spec" "spec" "spec"
      "configuration" "configuration" "a" refl refl (encodes true (both (("a", "1") ∷ []))) refl
      (encodes true (merge_specs codec true (both (("a", "1") ∷ [])) "spec" "spec").0) refl

-- The password is there, the token is not.
secret_target-keeps_example :
    (lookup "password"
        (secret_target (λ i. i) 16 ("password" ∷ "token" ∷ []) (("password", "old") ∷ [], 0)).0
      ≡ some "old")
    × (is_some (
          lookup "password"
            (secret_target (λ i. i) 16 ("password" ∷ "token" ∷ []) (("password", "old") ∷ [], 0)).0)
        ≡ true)
unfolding lookup
secret_target-keeps_example =
    secret_target-keeps (λ i. i) 16 ("password" ∷ "token" ∷ []) (("password", "old") ∷ []) 0
      "password"
