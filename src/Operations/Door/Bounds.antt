-- ===== src/Operations/Door/Bounds.antt =====
-- The interpolation of a door (Interp of operations/obj-traits/src/geom.rs) is between 0 and 1.
use kafka_cad.Prelude.{ℕ, zero, suc, ◌≡◌, false, Option, none, some, Bool-cases, inl, inr}
use kafka_cad.Operations.Geom.{Point3f, Line, Floats, new_interp, get_interp_along_line}
use kafka_cad.Operations.References.{
  RefType, drawable, existence, axis_aligned_bound_box, profile_point, profile_line, profile_plane,
  property, empty_type, ObjId, RefId, RefResult, empty_result, point, line, plane, cube,
  property_value,
}
use kafka_cad.Operations.LineSeg
use kafka_cad.Operations.LineSeg.{RefLineSeg, snapped}
use kafka_cad.Operations.Door.{
  Door, new, move_obj, clear_refs, set_ref, delete_ref, set_associated_result_for_type,
}

module _ (fl : Floats) where
  -- What `<` of f64 has at 0 and 1.
  pub record UnitOrder : Type 0 where
    pub zero_not_less : fl.less fl.zero_f fl.zero_f ≡ false
    pub one_not_less : fl.less fl.one_f fl.one_f ≡ false
    pub one_not_below : fl.less fl.one_f fl.zero_f ≡ false

  -- Neither below 0 nor above 1.
  abbrev pub IsUnit : fl.F → Type 0
  IsUnit v = (fl.less v fl.zero_f ≡ false) × (fl.less fl.one_f v ≡ false)

  -- What can be done to a door.
  pub data Step (d : Door fl.F) : Door fl.F → Type 0 where
    moved : (delta : Point3f fl.F) → Step d (move_obj fl delta d)
    cleared : Step d (clear_refs fl d)
    set :
        (t : RefType) (index : ℕ) (r : RefResult fl.F fl.Json) (other_ref : RefId)
        (snap_pt : Option (RefResult fl.F fl.Json))
        → Step d (set_ref fl t index r other_ref snap_pt d)
    deleted : (t : RefType) (index : ℕ) → Step d (delete_ref fl t index d)
    associated :
        (t : RefType) (index : ℕ) (r : Option (RefResult fl.F fl.Json))
        → Step d (set_associated_result_for_type fl t index r d)

  -- The doors that come from a new one.
  pub data Reachable : Door fl.F → Type 0 where
    made :
        (id : ObjId) (first second : Point3f fl.F) (width height : fl.F)
        → Reachable (new fl id first second width height)
    next : {d d' : Door fl.F} → Reachable d → Step d d' → Reachable d'

  module _ (order : UnitOrder) where
    new_interp-IsUnit : (v : fl.F) → IsUnit (new_interp fl v)
    unfolding new_interp
    new_interp-IsUnit v = elim (Bool-cases (fl.less fl.one_f v)) [
      | inl t ↦ rw (t, order.one_not_below) (order.one_not_below, order.one_not_less)
      | inr t ↦ elim (Bool-cases (fl.less v fl.zero_f)) [
        | inl u ↦ rw (t, u) (order.zero_not_less, order.one_not_below)
        | inr u ↦ rw (t, u) (u, t)
      ]
    ]

    snapped-IsUnit :
        (l : Line fl.F) (snap_pt : Option (RefResult fl.F fl.Json)) (interp : fl.F)
        → IsUnit interp
        → IsUnit (snapped fl l snap_pt interp)
    unfolding snapped get_interp_along_line
    snapped-IsUnit l none interp h = h
    snapped-IsUnit l (some empty_result) interp h = h
    snapped-IsUnit l (some (point p)) interp h = new_interp-IsUnit _
    snapped-IsUnit l (some (line _)) interp h = h
    snapped-IsUnit l (some (plane _)) interp h = h
    snapped-IsUnit l (some (cube _)) interp h = h
    snapped-IsUnit l (some (property_value _)) interp h = h

    update-IsUnit :
        (r : RefResult fl.F fl.Json) (snap_pt : Option (RefResult fl.F fl.Json))
        (seg : RefLineSeg fl.F)
        → IsUnit seg.interp
        → IsUnit (LineSeg.update fl r snap_pt seg).interp
    unfolding LineSeg.update
    update-IsUnit empty_result snap_pt seg h = h
    update-IsUnit (point _) snap_pt seg h = h
    update-IsUnit (line l) snap_pt seg h = snapped-IsUnit l snap_pt seg.interp h
    update-IsUnit (plane _) snap_pt seg h = h
    update-IsUnit (cube _) snap_pt seg h = h
    update-IsUnit (property_value _) snap_pt seg h = h

    set_reference-IsUnit :
        (r : RefResult fl.F fl.Json) (refer : RefId) (snap_pt : Option (RefResult fl.F fl.Json))
        (seg : RefLineSeg fl.F)
        → IsUnit seg.interp
        → IsUnit (LineSeg.set_reference fl r refer snap_pt seg).interp
    unfolding LineSeg.set_reference
    set_reference-IsUnit empty_result refer snap_pt seg h = h
    set_reference-IsUnit (point _) refer snap_pt seg h = h
    set_reference-IsUnit (line l) refer snap_pt seg h = update-IsUnit (line l) snap_pt _ h
    set_reference-IsUnit (plane _) refer snap_pt seg h = h
    set_reference-IsUnit (cube _) refer snap_pt seg h = h
    set_reference-IsUnit (property_value _) refer snap_pt seg h = h

    abbrev HasUnit : Door fl.F → Type 0
    HasUnit d = IsUnit d.dir.interp

    set_ref-HasUnit :
        (t : RefType) (index : ℕ) (r : RefResult fl.F fl.Json) (other_ref : RefId)
        (snap_pt : Option (RefResult fl.F fl.Json)) (d : Door fl.F)
        → HasUnit d
        → HasUnit (set_ref fl t index r other_ref snap_pt d)
    unfolding set_ref
    set_ref-HasUnit drawable index r o s d h = h
    set_ref-HasUnit existence index r o s d h = h
    set_ref-HasUnit axis_aligned_bound_box index r o s d h = h
    set_ref-HasUnit profile_point index r o s d h = h
    set_ref-HasUnit profile_line zero r o s d h = set_reference-IsUnit r o s d.dir h
    set_ref-HasUnit profile_line (suc _) r o s d h = h
    set_ref-HasUnit profile_plane index r o s d h = h
    set_ref-HasUnit property index r o s d h = h
    set_ref-HasUnit empty_type index r o s d h = h

    delete_ref-HasUnit :
        (t : RefType) (index : ℕ) (d : Door fl.F) → HasUnit d → HasUnit (delete_ref fl t index d)
    unfolding delete_ref
    delete_ref-HasUnit drawable index d h = h
    delete_ref-HasUnit existence index d h = h
    delete_ref-HasUnit axis_aligned_bound_box index d h = h
    delete_ref-HasUnit profile_point index d h = h
    delete_ref-HasUnit profile_line zero d h = h
    delete_ref-HasUnit profile_line (suc _) d h = h
    delete_ref-HasUnit profile_plane index d h = h
    delete_ref-HasUnit property index d h = h
    delete_ref-HasUnit empty_type index d h = h

    associated-HasUnit :
        (t : RefType) (index : ℕ) (r : Option (RefResult fl.F fl.Json)) (d : Door fl.F)
        → HasUnit d
        → HasUnit (set_associated_result_for_type fl t index r d)
    unfolding set_associated_result_for_type
    associated-HasUnit drawable index r d h = h
    associated-HasUnit existence index r d h = h
    associated-HasUnit axis_aligned_bound_box index r d h = h
    associated-HasUnit profile_point index r d h = h
    associated-HasUnit profile_line zero none d h = h
    associated-HasUnit profile_line zero (some r) d h = update-IsUnit r none d.dir h
    associated-HasUnit profile_line (suc _) r d h = h
    associated-HasUnit profile_plane index r d h = h
    associated-HasUnit property index r d h = h
    associated-HasUnit empty_type index r d h = h

    step-HasUnit : {d d' : Door fl.F} → Step d d' → HasUnit d → HasUnit d'
    unfolding move_obj clear_refs
    step-HasUnit (moved delta) h = h
    step-HasUnit cleared h = h
    step-HasUnit {d} (set t index r o s) h = set_ref-HasUnit t index r o s d h
    step-HasUnit {d} (deleted t index) h = delete_ref-HasUnit t index d h
    step-HasUnit {d} (associated t index r) h = associated-HasUnit t index r d h

    -- A door that comes from a new one by moves and changes of its references has its
    -- interpolation neither below 0 nor above 1.
    pub Reachable-IsUnit : (d : Door fl.F) → Reachable d → IsUnit d.dir.interp
    unfolding new LineSeg.new
    Reachable-IsUnit d (made id first second width height) = new_interp-IsUnit fl.zero_f
    Reachable-IsUnit d' (next r s) = step-HasUnit s (Reachable-IsUnit _ r)
