-- ===== src/Apply/Annotations.antt =====
-- What MergeSpecs does to the annotations of an object, in one call and in two that follow each
-- other.
use telemetry_operator.Base.{
  ◌≡◌, refl, ap, ◌∙◌, String, Bool, false, Option, none, some, [], ◌∷◌, arith, ◌==◌, if◌then◌else◌,
  is_some,
}
use telemetry_operator.Base.Map.{lookup, insert, delete, lookup-insert, lookup-delete}
use telemetry_operator.Kube.{StringMap}
use telemetry_operator.Cluster.{ok}
use telemetry_operator.Apply.Merge.{
  annotation_last_applied_configuration, LastAppliedConfiguration, Tools, Maps, edit, delete_all,
  insert_all, forget_last, last_applied, retarget, merge_specs,
}

pub lookup-insert_all :
    (k : String) (from m : StringMap)
    → lookup k (insert_all from m) ≡ (if is_some (lookup k from) then lookup k from else lookup k m)
unfolding lookup
lookup-insert_all k [] m = refl
lookup-insert_all k ((j, v) ∷ from) m =
    ground (arith, lookup-insert j k v (insert_all from m), lookup-insert_all k from m)

pub lookup-delete_all :
    (k : String) (keys m : StringMap)
    → lookup k (delete_all keys m) ≡ (if is_some (lookup k keys) then none else lookup k m)
unfolding lookup
lookup-delete_all k [] m = refl
lookup-delete_all k ((j, v) ∷ keys) m =
    ground (arith, lookup-delete j k m, lookup-delete_all k keys (delete j m))

-- The annotations that a configuration, if there is one, says were applied.
abbrev pub applied_before : Option LastAppliedConfiguration → StringMap
applied_before none = []
applied_before (some cfg) = cfg.annotations

module _ {T : Type 0} (tools : Tools T) where
  -- A call whose texts can all be made, with the text of the new configuration.
  pub record Encodes (shared : Bool) (m : Maps) (current target : T) (text : String) : Type 0 where
    pub json_current : String
    pub json_target : String
    pub marshal_current : tools.marshal current ≡ ok json_current
    pub marshal_target : tools.marshal target ≡ ok json_target
    pub encode :
        tools.encode
          (record { annotations = (retarget tools shared m).1.target; spec = json_target })
        ≡ ok text

  pub merge_specs-maps :
      (shared : Bool) (m : Maps) (current target : T) (text : String)
      → Encodes shared m current target text
      → (merge_specs tools shared m current target).0
        ≡ edit shared
            (insert annotation_last_applied_configuration text)
            (retarget tools shared m).1
  unfolding merge_specs
  merge_specs-maps shared m current target text h =
      rw (h.marshal_current, h.marshal_target, h.encode) refl

  -- What was applied last, as the object's annotation has it.
  abbrev pub before : Maps → StringMap
  before m = applied_before (tools.decode (last_applied tools m.object))

  forget_last-object :
      (k text : String) (cfg : Option LastAppliedConfiguration) (m : Maps)
      → lookup k (forget_last false text cfg m).1.object
        ≡ (if is_some (lookup k (applied_before cfg)) then none else lookup k m.object)
  unfolding lookup
  forget_last-object k text none m = refl
  forget_last-object k text (some cfg) m = lookup-delete_all k cfg.annotations m.object

  forget_last-target :
      (text : String) (cfg : Option LastAppliedConfiguration) (m : Maps)
      → (forget_last false text cfg m).1.target ≡ m.target
  forget_last-target text none m = refl
  forget_last-target text (some cfg) m = refl

  retarget-object :
      (m : Maps) (k : String)
      → lookup k (retarget tools false m).1.object ≡ (
          if is_some (lookup k m.target)
          then lookup k m.target
          else if is_some (lookup k (before m))
          then none
          else lookup k m.object)
  unfolding retarget
  retarget-object m k =
      let text = last_applied tools m.object in
      let cfg = tools.decode text in
      lookup-insert_all k (forget_last false text cfg m).1.target
        (forget_last false text cfg m).1.object
      ∙ rw (forget_last-target text cfg m, forget_last-object k text cfg m) refl

  -- MergeSpecs sets each annotation of the target, removes each one that it had set the last time
  -- and that the target has no more, and leaves the others; its own annotation gets the new
  -- configuration. (The texts can be made, and the two maps are not one.)
  pub merge_specs-annotation :
      (m : Maps) (current target : T) (text k : String)
      → Encodes false m current target text
      → lookup k (merge_specs tools false m current target).0.object ≡ (
          if annotation_last_applied_configuration == k
          then some text
          else if is_some (lookup k m.target)
          then lookup k m.target
          else if is_some (lookup k (before m))
          then none
          else lookup k m.object)
  unfolding retarget
  merge_specs-annotation m current target text k h =
      rw (merge_specs-maps false m current target text h) (
        lookup-insert annotation_last_applied_configuration k text _
        ∙ ap (λ o. if annotation_last_applied_configuration == k then some text else o)
            (retarget-object m k))

  -- The state of an object after a call.
  abbrev pub next : Maps → T → T → StringMap → Maps
  next m current target annotations = record {
    object = (merge_specs tools false m current target).0.object;
    target = annotations;
  }

  -- After two calls, the first of which wrote a text that is read back, an annotation of the first
  -- target that the second target has no more is gone, and one that neither target has is as it was
  -- after the first call. (The texts can be made, the maps are not one, and the annotation is not the
  -- operator's own.)
  pub merge_specs-twice :
      (m : Maps) (current target current' target' : T) (annotations : StringMap)
      (text text' k : String) (h : Encodes false m current target text)
      → tools.decode text ≡ some (record { annotations = m.target; spec = h.json_target })
      → Encodes false (next m current target annotations) current' target' text'
      → (annotation_last_applied_configuration == k) ≡ false
      → lookup k annotations ≡ none
      → lookup k
          (merge_specs tools false (next m current target annotations) current' target').0.object
        ≡ (if is_some (lookup k m.target)
            then none
            else lookup k (merge_specs tools false m current target).0.object)
  merge_specs-twice m current target current' target' annotations text text' k h decoded h' other
        gone =
      let written : lookup annotation_last_applied_configuration
            (merge_specs tools false m current target).0.object
          ≡ some text =
        merge_specs-annotation m current target text annotation_last_applied_configuration h in
      merge_specs-annotation (next m current target annotations) current' target' text' k h'
      ∙ rw (other, gone, written, decoded) refl
