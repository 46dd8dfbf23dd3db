-- ===== src/Operations/Ops/Groups.antt =====
-- What remove_objs_from_visibility_group leaves of a group.
use mathlib.Core.List.{append_assoc}
use kafka_cad.Prelude.{
  Bool, true, ℕ, suc, ◌≡◌, refl, ap, false, Option, none, some, List, [], ◌∷◌, ◌++◌, map, length,
  set-append, length-append, Bool-cases, string_eq, inl, inr, ◌⊎◌, arith, if◌then◌else◌,
}
use kafka_cad.Prelude.Result.{ok, err}
use kafka_cad.Redis.{contains}
use kafka_cad.Operations.Geom.{Floats}
use kafka_cad.Operations.References.{drawable, ObjId, RefId, Reference}
use kafka_cad.Operations.Errors.{obj_wrong_type}
use kafka_cad.Operations.VisibilityGroup
use kafka_cad.Operations.VisibilityGroup.{VisibilityGroup, child_refs}
use kafka_cad.Operations.DataBox.{
  DataBox, wall, door, sheet, viewport, visibility_group, symbol_def, symbol_instance, data_box,
  get_id, get_refs, delete_ref, is_visibility_group,
}
use kafka_cad.Operations.Ops.{remove_objs, remove_objs_from_visibility_group}

-- A place without its reference, where that is to one of the objects.
abbrev pub unlinked : List ObjId → Option Reference → Option Reference
unlinked objs none = none
unlinked objs (some refer) = if contains objs refer.other.id then none else some refer

abbrev pub without : List ObjId → Option RefId → Option RefId
without objs none = none
without objs (some child) = if contains objs child.id then none else some child

child_refs-without :
    (objs : List ObjId) (id : ObjId) (index : ℕ) (children : List (Option RefId))
    → child_refs id index (map (without objs) children)
      ≡ map (unlinked objs) (child_refs id index children)
unfolding child_refs
child_refs-without objs id index [] = refl
child_refs-without objs id index (none ∷ children) =
    ap (◌∷◌ none) (child_refs-without objs id (suc index) children)
child_refs-without objs id index (some child ∷ children) =
    elim (Bool-cases (contains objs child.id)) [
      | inl t ↦ rw (t, child_refs) (ap (◌∷◌ none) (child_refs-without objs id (suc index) children))
      | inr t ↦
          rw (t, child_refs)
            (ap
              (◌∷◌ (
                some (record {
                  owner = record { id = id; ref_type = drawable; index = index };
                  other = child;
                })))
              (child_refs-without objs id (suc index) children))
    ]

module _ (fl : Floats) where
  abbrev pub group_of : ObjId → List (Option RefId) → DataBox fl
  group_of id children = visibility_group (record { id = id; children = children })

  -- The children before are done.
  abbrev Removes : List ObjId → ObjId → List (Option RefId) → List (Option RefId) → Type 0
  Removes objs id before children =
      remove_objs (data_box fl) (child_refs id (length before) children) objs
        (group_of id (before ++ children))
      ≡ group_of id (before ++ map (without objs) children)

  later-Removes :
      (objs : List ObjId) (id : ObjId) (before children : List (Option RefId))
      (child : Option RefId)
      → Removes objs id (before ++ child ∷ []) children
      → remove_objs
          (data_box fl)
          (child_refs id (suc (length before)) children)
          objs
          (group_of id (before ++ child ∷ children))
        ≡ group_of id (before ++ child ∷ map (without objs) children)
  later-Removes objs id before children child h =
      let size : length (before ++ child ∷ []) ≡ suc (length before) =
        omega (arith, length-append before (child ∷ [])) in
      rw
        (
          size,
          append_assoc before (child ∷ []) children,
          append_assoc before (child ∷ []) (map (without objs) children),
        )
        at h

  removes :
      (objs : List ObjId) (id : ObjId) (before children : List (Option RefId))
      → Removes objs id before children
  unfolding remove_objs child_refs delete_ref VisibilityGroup.delete_ref
  removes objs id before [] = refl
  removes objs id before (none ∷ children) =
      later-Removes objs id before children none (removes objs id (before ++ none ∷ []) children)
  removes objs id before (some child ∷ children) = elim (Bool-cases (contains objs child.id)) [
    | inl t ↦
        rw (t, remove_objs, set-append before children (some child) none)
          (later-Removes objs id before children none
            (removes objs id (before ++ none ∷ []) children))
    | inr t ↦
        rw (t, remove_objs)
          (later-Removes objs id before children (some child)
            (removes objs id (before ++ some child ∷ []) children))
  ]

  abbrev pub is_group : DataBox fl → Bool
  is_group (visibility_group g) = true
  is_group (wall w) = false
  is_group (door d) = false
  is_group (sheet s) = false
  is_group (viewport v) = false
  is_group (symbol_def d) = false
  is_group (symbol_instance i) = false

  -- Removing objects from a visibility group succeeds, and empties exactly the places of the
  -- group's children, and so of its references, that are one of the objects; the other ones keep
  -- their places, and the group its id. On an object of any other class it is refused as of the
  -- wrong type.
  pub remove_objs_from_visibility_group-unlinked :
      (group : DataBox fl) (objs : List ObjId)
      → (is_group group ≡ false)
          × (remove_objs_from_visibility_group (data_box fl) group objs
              ≡ err (obj_wrong_type (get_id fl group)))
        ⊎ (g : VisibilityGroup) × (group ≡ visibility_group g)
          × (remove_objs_from_visibility_group (data_box fl) group objs
              ≡ ok (group_of g.id (map (without objs) g.children)))
          × (get_refs fl (group_of g.id (map (without objs) g.children))
              ≡ map (unlinked objs) (get_refs fl group))
  unfolding remove_objs_from_visibility_group is_visibility_group get_refs VisibilityGroup.get_refs
  remove_objs_from_visibility_group-unlinked (visibility_group g) objs =
      inr (
        g,
        refl,
        ap ok (removes objs g.id [] g.children),
        child_refs-without objs g.id 0 g.children,
      )
  remove_objs_from_visibility_group-unlinked (wall w) objs = inl (refl, refl)
  remove_objs_from_visibility_group-unlinked (door d) objs = inl (refl, refl)
  remove_objs_from_visibility_group-unlinked (sheet s) objs = inl (refl, refl)
  remove_objs_from_visibility_group-unlinked (viewport v) objs = inl (refl, refl)
  remove_objs_from_visibility_group-unlinked (symbol_def d) objs = inl (refl, refl)
  remove_objs_from_visibility_group-unlinked (symbol_instance i) objs = inl (refl, refl)
