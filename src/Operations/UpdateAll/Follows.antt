-- ===== src/Operations/UpdateAll/Follows.antt =====
-- A part of a wall that follows a part of another object has its result after update_all.
use kafka_cad.Prelude.{
  ℕ, zero, suc, ◌<◌, ◌≡◌, refl, ◌∙◌, false, Option, some, List, [], ◌∷◌, ◌++◌, length, get_elem?,
  get_elem?-set_self, string_eq, ◌==◌, ==_refl, arith,
}
use kafka_cad.Maps.{IndexMap, IndexMaps, lookup}
use kafka_cad.Operations.Geom.{Plane, Floats}
use kafka_cad.Operations.References.{
  RefType, drawable, existence, axis_aligned_bound_box, profile_point, profile_line, profile_plane,
  property, empty_type, RefId, Reference, RefResult, empty_result, point, line, plane, cube,
  property_value, UpdatableInfo, update, point_from_result, plane_from_result,
}
use kafka_cad.Operations.Wall
use kafka_cad.Operations.Wall.{Wall}
use kafka_cad.Operations.Wall.Edits
use kafka_cad.Operations.DataBox.{
  DataBox, wall, data_box, get_result, set_associated_result_for_type,
}
use kafka_cad.Operations.UpdateAll.{get_ref_result, set_owner, update_reference, update_all}
use kafka_cad.Operations.UpdateAll.Frame.{
  owns, lookup-update_reference, lookup-update_all, update_all-append,
}

-- The results that a part of a wall takes: a point at an end, a plane at an opening that is there.
abbrev pub Accepts : {F Json : Type 0} → Wall F → RefType → ℕ → RefResult F Json → Type 0
Accepts w profile_point index (point p) = index < 2
Accepts {F} w profile_plane index (plane p) =
    (open_ : UpdatableInfo (Plane F)) × (get_elem? w.openings index ≡ some (some open_))
Accepts w _ index _ = ⊥

lt-get_elem? :
    {A : Type 0} (xs : List A) (index : ℕ) (a : A) → get_elem? xs index ≡ some a → index < length xs
lt-get_elem? [] index a h = cc h
lt-get_elem? (x ∷ xs) zero a h = omega arith
lt-get_elem? (x ∷ xs) (suc index) a h = omega (arith, lt-get_elem? xs index a h)

module _ (fl : Floats) where
  wall-Accepts :
      (w : Wall fl.F) (t : RefType) (index : ℕ) (r : RefResult fl.F fl.Json)
      → Accepts w t index r
      → Wall.get_result fl t index (Edits.set_associated_result_for_type fl t index (some r) w)
        ≡ some r
  unfolding Wall.get_result Edits.set_associated_result_for_type Edits.update_open update
      point_from_result plane_from_result
  wall-Accepts w drawable index r h = elim h [ ]
  wall-Accepts w existence index r h = elim h [ ]
  wall-Accepts w axis_aligned_bound_box index r h = elim h [ ]
  wall-Accepts w profile_line index r h = elim h [ ]
  wall-Accepts w property index r h = elim h [ ]
  wall-Accepts w empty_type index r h = elim h [ ]
  wall-Accepts w profile_point zero (point p) h = refl
  wall-Accepts w profile_point (suc zero) (point p) h = refl
  wall-Accepts w profile_point (suc (suc index)) (point p) h = absurd (omega arith)
  wall-Accepts w profile_point index empty_result h = elim h [ ]
  wall-Accepts w profile_point index (line l) h = elim h [ ]
  wall-Accepts w profile_point index (plane p) h = elim h [ ]
  wall-Accepts w profile_point index (cube c) h = elim h [ ]
  wall-Accepts w profile_point index (property_value v) h = elim h [ ]
  wall-Accepts w profile_plane index empty_result h = elim h [ ]
  wall-Accepts w profile_plane index (line l) h = elim h [ ]
  wall-Accepts w profile_plane index (point p) h = elim h [ ]
  wall-Accepts w profile_plane index (cube c) h = elim h [ ]
  wall-Accepts w profile_plane index (property_value v) h = elim h [ ]
  wall-Accepts w profile_plane index (plane p) (open_, h) = rw (
    h,
    get_elem?-set_self w.openings index (some (record open_ { info = p }))
        (lt-get_elem? w.openings index (some open_) h),
    Wall.get_result,
    Edits.set_associated_result_for_type,
    Edits.update_open,
  )

  module _ (maps : IndexMaps (Option (DataBox fl))) where
    abbrev Objs : Type 0
    Objs = IndexMap (Option (DataBox fl))

    result_of :
        (objs : Objs) (ref_id : RefId) (obj : DataBox fl)
        → lookup ref_id.id objs ≡ some (some obj)
        → get_ref_result (data_box fl) maps objs ref_id
          ≡ get_result fl ref_id.ref_type ref_id.index obj
    unfolding get_ref_result
    result_of objs ref_id obj p = rw (maps.get_entry objs ref_id.id, p, get_ref_result)

    same_result :
        (objs objs' : Objs) (ref_id : RefId)
        → lookup ref_id.id objs' ≡ lookup ref_id.id objs
        → get_ref_result (data_box fl) maps objs' ref_id
          ≡ get_ref_result (data_box fl) maps objs ref_id
    unfolding get_ref_result
    same_result objs objs' ref_id p =
        rw (maps.get_entry objs' ref_id.id, maps.get_entry objs ref_id.id, p, get_ref_result)

    -- The step of the reference itself.
    follows_step :
        (objs : Objs) (refer : Reference) (w : Wall fl.F) (r : RefResult fl.F fl.Json)
        → (refer.owner.id == refer.other.id) ≡ false
        → lookup refer.owner.id objs ≡ some (some (wall w))
        → Accepts w refer.owner.ref_type refer.owner.index r
        → get_ref_result (data_box fl) maps objs refer.other ≡ some r
        → get_ref_result
            (data_box fl)
            maps
            (update_reference (data_box fl) maps objs refer)
            refer.owner
          ≡ some r
    unfolding set_owner get_result set_associated_result_for_type
    follows_step objs refer w r differ p takes q =
        let t = refer.owner.ref_type in
        let index = refer.owner.index in
        result_of _ refer.owner (wall (Edits.set_associated_result_for_type fl t index (some r) w))
          (lookup-update_reference (data_box fl) maps objs refer refer.owner.id differ
            ∙ rw (==_refl refer.owner.id, p, q))
        ∙ wall-Accepts w t index r takes

    -- After update_all, a part of a wall that takes the result of a part of another object has this
    -- result, where the other object has it once the references before are done and no later
    -- reference is of a part of either object; the other object still has it.
    pub update_all-follows :
        (objs : Objs) (before after : List Reference) (refer : Reference) (w : Wall fl.F)
        (r : RefResult fl.F fl.Json)
        → (refer.owner.id == refer.other.id) ≡ false
        → lookup refer.owner.id (update_all (data_box fl) maps objs before) ≡ some (some (wall w))
        → Accepts w refer.owner.ref_type refer.owner.index r
        → get_ref_result (data_box fl) maps (update_all (data_box fl) maps objs before) refer.other
          ≡ some r
        → owns after refer.owner.id ≡ false
        → owns after refer.other.id ≡ false
        → (let done = update_all (data_box fl) maps objs (before ++ refer ∷ after) in
            (get_ref_result (data_box fl) maps done refer.owner ≡ some r)
            × (get_ref_result (data_box fl) maps done refer.other ≡ some r))
    unfolding update_all
    update_all-follows objs before after refer w r differ p takes q own other =
        let d = data_box fl in
        let mid = update_all d maps objs before in
        let next = update_reference d maps mid refer in
        rw (update_all-append d maps objs before (refer ∷ after)) (
          same_result next _ refer.owner (lookup-update_all d maps next after refer.owner.id own)
              ∙ follows_step mid refer w r differ p takes q,
          same_result next _ refer.other (lookup-update_all d maps next after refer.other.id other)
              ∙ same_result mid next refer.other
                  (lookup-update_reference d maps mid refer refer.other.id differ ∙ rw differ)
              ∙ q,
        )
