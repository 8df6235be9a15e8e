-- ===== src/Apply/Aliasing.antt =====
-- Objects that are created with one map of annotations between them, as the claims of a stateful set
-- are (telemetryPVCs and its kin put the custom resource's own map into each).
use telemetry_operator.Base.{◌≡◌, refl, ap, ◌∙◌, String, true, false, none, some, arith, ◌==◌}
use telemetry_operator.Base.Map.{lookup, insert, lookup-insert}
use telemetry_operator.Kube.{StringMap}
use telemetry_operator.Apply.Merge.{
  annotation_last_applied_configuration, Tools, Maps, edit, delete_all, insert_all, retarget,
  merge_specs,
}
use telemetry_operator.Apply.Annotations.{
  lookup-insert_all, lookup-delete_all, Encodes, merge_specs-maps,
}

-- The two maps are one, with these entries.
abbrev pub both : StringMap → Maps
both s = record { object = s; target = s }

lookup-insert_self_all : (k : String) (w : StringMap) → lookup k (insert_all w w) ≡ lookup k w
lookup-insert_self_all k w = ground (arith, lookup-insert_all k w w)

deleted :
    (k text : String) (u : StringMap)
    → (annotation_last_applied_configuration == k) ≡ false
    → lookup k (delete_all u (insert annotation_last_applied_configuration text u)) ≡ none
deleted k text u other = ground (
  arith,
  lookup-delete_all k u (insert annotation_last_applied_configuration text u),
  lookup-insert annotation_last_applied_configuration k text u,
)

module _ {T : Type 0} (tools : Tools T) where
  retarget-fresh :
      (s : StringMap)
      → lookup annotation_last_applied_configuration s ≡ none
      → tools.decode "" ≡ none
      → (retarget tools true (both s)).1 ≡ both (insert_all s s)
  unfolding retarget
  retarget-fresh s fresh empty = rw (fresh, empty) refl

  retarget-known :
      (s u : StringMap) (text spec : String)
      → lookup annotation_last_applied_configuration s ≡ some text
      → tools.decode text ≡ some (record { annotations = u; spec = spec })
      → (retarget tools true (both s)).1 ≡ both (insert_all (delete_all u s) (delete_all u s))
  unfolding retarget
  retarget-known s u text spec known decoded = rw (known, decoded) refl

  -- Where two objects that are not in the cluster yet are created with one map of annotations
  -- between them, the second is left with none of these: after its call the only annotation is the
  -- operator's own. (The map has not the operator's annotation yet, the texts can be made, the first one
  -- is read back, and the empty text is not
  -- JSON.)
  pub merge_specs-loses_annotations :
      (s : StringMap) (current target current' target' : T) (text text' k : String)
      → lookup annotation_last_applied_configuration s ≡ none
      → tools.decode "" ≡ none
      → (h : Encodes tools true (both s) current target text)
      → tools.decode text ≡ some (record { annotations = insert_all s s; spec = h.json_target })
      → Encodes tools true (merge_specs tools true (both s) current target).0 current' target' text'
      → (annotation_last_applied_configuration == k) ≡ false
      → lookup k
          (merge_specs tools true
            (merge_specs tools true (both s) current target).0
            current'
            target').0.object
        ≡ none
  merge_specs-loses_annotations s current target current' target' text text' k fresh empty h decoded
        h' other =
      let u = insert_all s s in
      let v = insert annotation_last_applied_configuration text u in
      let first : (merge_specs tools true (both s) current target).0 ≡ both v =
        merge_specs-maps tools true (both s) current target text h
        ∙ ap (edit true (insert annotation_last_applied_configuration text))
            (retarget-fresh s fresh empty) in
      let second : (merge_specs tools true (merge_specs tools true (both s) current target).0
            current' target').0
          ≡ edit true (insert annotation_last_applied_configuration text')
              (both (insert_all (delete_all u v) (delete_all u v))) =
        merge_specs-maps tools true (merge_specs tools true (both s) current target).0 current'
          target' text' h'
        ∙ ap
            (λ m.
              edit true (insert annotation_last_applied_configuration text')
                (retarget tools true m).1)
            first
        ∙ ap (edit true (insert annotation_last_applied_configuration text')) (
            retarget-known v u text h.json_target
              (lookup-insert annotation_last_applied_configuration
                annotation_last_applied_configuration text u)
              decoded) in
      ap (λ m. lookup k m.object) second
      ∙ lookup-insert annotation_last_applied_configuration k text' _
      ∙ rw other (lookup-insert_self_all k (delete_all u v) ∙ deleted k text u other)
