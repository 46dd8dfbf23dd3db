-- ===== src/Operations/Data.antt =====
-- The trait Data of operations/obj-traits/src/lib.rs, by which the operations see every object,
-- with Position.
use kafka_cad.Prelude.{ℕ, Bool, Option, List, [], ◌∷◌, if◌then◌else◌, ltb}
use kafka_cad.Operations.Geom.{Point3f, Floats}
use kafka_cad.Operations.References.{
  RefType, drawable, existence, axis_aligned_bound_box, profile_point, profile_line, profile_plane,
  property, empty_type, ObjId, RefId, Reference, RefResult,
}

-- `Obj` is a DataBox. move_obj is as_position_mut and the move: nothing where an object has no
-- position. reset_id has the new UUID as an argument.
pub record Data (fl : Floats) : Type 1 where
  pub Obj : Type 0
  pub get_id : Obj → ObjId
  pub reset_id : ObjId → Obj → Obj
  pub get_result : RefType → ℕ → Obj → Option (RefResult fl.F fl.Json)
  pub get_results_for_type : RefType → Obj → List (RefResult fl.F fl.Json)
  pub get_num_results_for_type : RefType → Obj → ℕ
  pub clear_refs : Obj → Obj
  pub get_refs : Obj → List (Option Reference)
  pub get_available_refs_for_type : RefType → Obj → List ℕ
  pub set_ref :
      RefType → ℕ → RefResult fl.F fl.Json → RefId → Option (RefResult fl.F fl.Json) → Obj → Obj
  pub add_ref :
      RefType → RefResult fl.F fl.Json → RefId → Option (RefResult fl.F fl.Json) → Obj → Bool × Obj
  pub delete_ref : RefType → ℕ → Obj → Obj
  pub set_associated_result_for_type : RefType → ℕ → Option (RefResult fl.F fl.Json) → Obj → Obj
  pub move_obj : Point3f fl.F → Obj → Option Obj
  pub is_visibility_group : Obj → Bool

pub record RefTypedResults (F Json : Type 0) : Type 0 where
  pub ref_type : RefType
  pub results : List (RefResult F Json)

abbrev pub ref_types : List RefType
ref_types =
    drawable ∷ existence ∷ axis_aligned_bound_box ∷ profile_point ∷ profile_line ∷ profile_plane
    ∷ property ∷ empty_type ∷ []

module _ {fl : Floats} (d : Data fl) where
  pub all_results : List RefType → d.Obj → List (RefTypedResults fl.F fl.Json)
  all_results [] obj = []
  all_results (ref_type ∷ types) obj =
      let rest = all_results types obj in
      if ltb 0 (d.get_num_results_for_type ref_type obj)
      then record { ref_type = ref_type; results = d.get_results_for_type ref_type obj } ∷ rest
      else rest

  unfoldable pub get_all_results : d.Obj → List (RefTypedResults fl.F fl.Json)
  unfolding all_results
  get_all_results obj = all_results ref_types obj
