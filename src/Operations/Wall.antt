-- ===== src/Operations/Wall.antt =====
-- operations/obj-defs/src/wall.rs: the wall as data with references.
pub mod Edits
pub mod Results
pub mod Slots
use kafka_cad.Prelude.{
  ℕ, zero, suc, Bool, true, false, Option, none, some, List, [], ◌∷◌, ◌++◌, length, get_elem?, set,
}
use kafka_cad.Operations.Geom.{
  Point3f, Line, Plane, Cube, Floats, add_pt, get_axis_aligned_bound_box,
}
use kafka_cad.Operations.References.{
  RefType, drawable, existence, axis_aligned_bound_box, profile_point, profile_line, profile_plane,
  property, empty_type, ObjId, RefId, Reference, RefResult, empty_result, point, line, plane, cube,
  property_value, UpdatableInfo, new_info, update, set_reference, point_from_result,
  plane_from_result,
}

-- An opening that was deleted is None.
abbrev pub Openings : Type 0 → Type 0
Openings F = List (Option (UpdatableInfo (Plane F)))

pub record Wall (F : Type 0) : Type 0 where
  pub first_pt : UpdatableInfo (Point3f F)
  pub second_pt : UpdatableInfo (Point3f F)
  pub width : F
  pub height : F
  pub openings : Openings F
  pub id : ObjId

-- The loops over the openings, from an index on.
unfoldable pub open_results : {F Json : Type 0} → Openings F → List (RefResult F Json)
open_results [] = []
open_results (none ∷ opens) = open_results opens
open_results (some open_ ∷ opens) = plane open_.info ∷ open_results opens

unfoldable pub open_refs : {F : Type 0} → ObjId → ℕ → Openings F → List (Option Reference)
open_refs id index [] = []
open_refs id index (none ∷ opens) = none ∷ open_refs id (suc index) opens
open_refs id index (some open_ ∷ opens) =
    (elim open_.refer [
      | none ↦ none
      | some other ↦ some (record {
        owner = record { id = id; ref_type = profile_plane; index = index };
        other = other;
      })
    ])
    ∷ open_refs id (suc index) opens

unfoldable pub available : {F : Type 0} → ℕ → Openings F → List ℕ
available index [] = []
available index (none ∷ opens) = index ∷ available (suc index) opens
available index (some open_ ∷ opens) =
    let rest = available (suc index) opens in
    elim open_.refer [ none ↦ index ∷ rest | some _ ↦ rest ]

unfoldable pub clear_opens : {F : Type 0} → Openings F → Openings F
clear_opens [] = []
clear_opens (none ∷ opens) = none ∷ clear_opens opens
clear_opens (some open_ ∷ opens) = some (record open_ { refer = none }) ∷ clear_opens opens

module _ (fl : Floats) where
  -- `id` is the new UUID.
  pub new : ObjId → Point3f fl.F → Point3f fl.F → fl.F → fl.F → Wall fl.F
  new id first second width height = record {
    first_pt = new_info first;
    second_pt = new_info second;
    width = width;
    height = height;
    openings = [];
    id = id;
  }

  pub get_axis_aligned_bounding_box : Wall fl.F → Cube fl.F
  get_axis_aligned_bounding_box w =
      get_axis_aligned_bound_box fl w.first_pt.info w.second_pt.info w.width w.height

  pub move_obj : Point3f fl.F → Wall fl.F → Wall fl.F
  move_obj delta w = record w {
    first_pt = record w.first_pt { info = add_pt fl w.first_pt.info delta };
    second_pt = record w.second_pt { info = add_pt fl w.second_pt.info delta };
  }

  unfoldable pub get_result : RefType → ℕ → Wall fl.F → Option (RefResult fl.F fl.Json)
  get_result drawable result w = some empty_result
  get_result existence result w = some empty_result
  get_result axis_aligned_bound_box zero w = some (cube (get_axis_aligned_bounding_box w))
  get_result axis_aligned_bound_box (suc _) w = none
  get_result profile_point zero w = some (point w.first_pt.info)
  get_result profile_point (suc zero) w = some (point w.second_pt.info)
  get_result profile_point (suc (suc _)) w = none
  get_result profile_line zero w =
      some (line (record { pt_1 = w.first_pt.info; pt_2 = w.second_pt.info }))
  get_result profile_line (suc _) w = none
  get_result profile_plane result w = elim (get_elem? w.openings result) [
    | none ↦ none
    | some open_opt ↦ elim open_opt [ none ↦ none | some open_ ↦ some (plane open_.info) ]
  ]
  get_result property result w = none
  get_result empty_type result w = none

  unfoldable pub get_results_for_type : RefType → Wall fl.F → List (RefResult fl.F fl.Json)
  get_results_for_type drawable w = empty_result ∷ []
  get_results_for_type existence w = empty_result ∷ []
  get_results_for_type axis_aligned_bound_box w = cube (get_axis_aligned_bounding_box w) ∷ []
  get_results_for_type profile_point w = point w.first_pt.info ∷ point w.second_pt.info ∷ []
  get_results_for_type profile_line w =
      line (record { pt_1 = w.first_pt.info; pt_2 = w.second_pt.info }) ∷ []
  get_results_for_type profile_plane w = open_results w.openings
  get_results_for_type property w = []
  get_results_for_type empty_type w = []

  unfoldable pub get_num_results_for_type : RefType → Wall fl.F → ℕ
  get_num_results_for_type drawable w = 1
  get_num_results_for_type existence w = 1
  get_num_results_for_type axis_aligned_bound_box w = 1
  get_num_results_for_type profile_point w = 2
  get_num_results_for_type profile_line w = 1
  get_num_results_for_type profile_plane w = length w.openings
  get_num_results_for_type property w = 0
  get_num_results_for_type empty_type w = 0

  pub get_available_refs_for_type : RefType → Wall fl.F → List ℕ
  get_available_refs_for_type profile_point w =
      (elim w.first_pt.refer [ none ↦ 0 ∷ [] | some _ ↦ [] ])
      ++ (elim w.second_pt.refer [ none ↦ 1 ∷ [] | some _ ↦ [] ])
  get_available_refs_for_type profile_plane w = available 0 w.openings
  get_available_refs_for_type _ w = []

  pub clear_refs : Wall fl.F → Wall fl.F
  clear_refs w = record w {
    first_pt = record w.first_pt { refer = none };
    second_pt = record w.second_pt { refer = none };
    openings = clear_opens w.openings;
  }

  -- The reference that a part of the wall has, where it follows something.
  abbrev pub follows : RefId → Option RefId → Option Reference
  follows owner none = none
  follows owner (some other) = some (record { owner = owner; other = other })

  unfoldable pub get_refs : Wall fl.F → List (Option Reference)
  get_refs w =
      let self_pt_0 : RefId = record { id = w.id; ref_type = profile_point; index = 0 } in
      let self_pt_1 : RefId = record { id = w.id; ref_type = profile_point; index = 1 } in
      let self_line : RefId = record { id = w.id; ref_type = profile_line; index = 0 } in
      let self_bbox : RefId = record { id = w.id; ref_type = axis_aligned_bound_box; index = 0 } in
      follows self_pt_0 w.first_pt.refer
      ∷ follows self_pt_1 w.second_pt.refer
      ∷ some (record { owner = self_bbox; other = self_pt_0 })
      ∷ some (record { owner = self_bbox; other = self_pt_1 })
      ∷ some (record { owner = self_line; other = self_pt_0 })
      ∷ some (record { owner = self_line; other = self_pt_1 })
      ∷ open_refs w.id 0 w.openings
