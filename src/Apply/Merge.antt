-- ===== src/Apply/Merge.antt =====
-- controller/utils.go: MergeSpecs. encoding/json and strategicpatch of k8s.io/apimachinery, which
-- are not part of the repository, are a parameter. On the first creation of an object its annotations
-- and the target annotations are one map (the caller reads the one from the other), so that a write to
-- the one is a write to the other; `shared` says whether they are.
use Prim.Native.String.{◌++◌}
use telemetry_operator.Base.{String, Bool, Option, none, some, [], ◌∷◌, ◌==◌, if◌then◌else◌}
use telemetry_operator.Base.Map.{lookup, insert, delete}
use telemetry_operator.Kube.{StringMap}
use telemetry_operator.Cluster.{Result, ok, err}
use telemetry_operator.Postgres.{value_or_empty}

abbrev pub annotation_last_applied_configuration : String
annotation_last_applied_configuration = "operator.deploy.tel/last-applied-configuration"

-- LastAppliedConfiguration; the specification is a JSON text
pub record LastAppliedConfiguration : Type 0 where
  pub annotations : StringMap
  pub spec : String

pub record Tools (T : Type 0) : Type 0 where
  -- json.Marshal and json.Unmarshal of the specifications
  pub marshal : T → Result String
  pub unmarshal : String → Result T
  -- the same of LastAppliedConfiguration; an error of Unmarshal is only tested for
  pub encode : LastAppliedConfiguration → Result String
  pub decode : String → Option LastAppliedConfiguration
  -- NewPatchMetaFromStruct: an error, if there is one
  pub patch_meta_error : T → Option String
  -- CreateThreeWayMergePatch, of original, target and current
  pub three_way_patch : String → String → String → Result String
  -- StrategicMergePatchUsingLookupPatchMeta, of current and patch
  pub apply_patch : String → String → Result String

-- The two maps: the object's and the target's.
pub record Maps : Type 0 where
  pub object : StringMap
  pub target : StringMap

-- A write to the object's map.
abbrev pub edit : Bool → (StringMap → StringMap) → Maps → Maps
edit shared f m =
    let object = f m.object in
    record { object = object; target = if shared then object else m.target }

abbrev pub delete_all : StringMap → StringMap → StringMap
delete_all [] m = m
delete_all ((k, v) ∷ keys) m = delete_all keys (delete k m)

-- for k, v := range from { m[k] = v }; the keys of a map are distinct, so the order is no matter
abbrev pub insert_all : StringMap → StringMap → StringMap
insert_all [] m = m
insert_all ((k, v) ∷ from) m = insert k v (insert_all from m)

-- What was applied last: the specification, and the maps without its annotations.
abbrev pub forget_last : Bool → String → Option LastAppliedConfiguration → Maps → String × Maps
forget_last shared text none m = (text, m)
forget_last shared text (some cfg) m = (cfg.spec, edit shared (delete_all cfg.annotations) m)

-- fmt.Errorf("failed to ...: %w", err)
abbrev wrapped {ℓ} : {A : Type ℓ} → String → Result A → Result A
wrapped what (err e) = err ("failed to " ++ what ++ ": " ++ e)
wrapped what (ok a) = ok a

module _ {T : Type 0} (tools : Tools T) where
  abbrev pub last_applied : StringMap → String
  last_applied m = value_or_empty (lookup annotation_last_applied_configuration m)

  -- The annotations from line 52 to line 68 of the file: the original specification, and the maps
  -- before the new configuration is encoded.
  unfoldable pub retarget : Bool → Maps → String × Maps
  retarget shared m =
      let (original, m1) =
        forget_last shared (last_applied m.object) (tools.decode (last_applied m.object)) m in
      (original, edit shared (insert_all m1.target) m1)

  -- The specification that results from a patch.
  abbrev patched : T → String → Result String → Result T
  patched spec current (err e) = err e
  patched spec current (ok patch) =
      if patch == "{}"
      then ok spec
      else (elim (wrapped "apply patch" (tools.apply_patch current patch)) [
        | err e ↦ err e
        | ok merged ↦ wrapped "unmarshal merged data" (tools.unmarshal merged)
      ])

  abbrev merge_patch : T → String → String → String → Option String → Result T
  merge_patch spec original target current (some e) =
      err ("failed to produce patch meta from struct: " ++ e)
  merge_patch spec original target current none =
      patched spec current
        (wrapped "create three way merge patch" (tools.three_way_patch original target current))

  -- From line 69 on. Where the encoding fails, the map was changed in place
  -- (an object without annotations keeps none there in the source; json.Marshal does not fail on a
  -- text that it has made itself).
  abbrev encoded : Bool → T → String → String → String → Maps → Result String → Maps × Result T
  encoded shared spec original target current m (err e) = (m, err e)
  encoded shared spec original target current m (ok text) = (
    edit shared (insert annotation_last_applied_configuration text) m,
    merge_patch spec original target current (tools.patch_meta_error spec),
  )

  abbrev marshalled : Bool → Maps → T → String → Result String → Maps × Result T
  marshalled shared m spec current (err e) = (m, err e)
  marshalled shared m spec current (ok target) =
      let (original, m1) = retarget shared m in
      encoded shared spec original target current m1 (
        wrapped "marshal last applied"
          (tools.encode (record { annotations = m1.target; spec = target })))

  abbrev merging : Bool → Maps → T → T → Result String → Maps × Result T
  merging shared m current_spec target_spec (err e) = (m, err e)
  merging shared m current_spec target_spec (ok current) =
      marshalled shared m current_spec current
        (wrapped "marshal target" (tools.marshal target_spec))

  -- MergeSpecs: the annotations, and the new specification or the error. The test CanSet holds of
  -- every pointer's target.
  unfoldable pub merge_specs : Bool → Maps → T → T → Maps × Result T
  unfolding retarget
  merge_specs shared m current_spec target_spec =
      merging shared m current_spec target_spec
        (wrapped "marshal current" (tools.marshal current_spec))
