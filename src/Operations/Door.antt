-- ===== src/Operations/Door.antt =====
-- operations/obj-defs/src/door.rs: the door as data with references, without its drawing views.
pub mod Bounds
use kafka_cad.Prelude.{ℕ, zero, suc, Bool, false, Option, none, some, List, [], ◌∷◌}
use kafka_cad.Operations.Geom.{
  Point3f, Line, Plane, Cube, Floats, add_pt, get_axis_aligned_bound_box,
}
use kafka_cad.Operations.References.{
  RefType, drawable, existence, axis_aligned_bound_box, profile_point, profile_line, profile_plane,
  property, empty_type, ObjId, RefId, Reference, RefResult, empty_result, point, plane, cube,
}
use kafka_cad.Operations.LineSeg
use kafka_cad.Operations.LineSeg.{RefLineSeg}

pub record Door (F : Type 0) : Type 0 where
  pub id : ObjId
  pub dir : RefLineSeg F
  pub width : F
  pub height : F

module _ (fl : Floats) where
  -- `id` is the new UUID.
  pub new : ObjId → Point3f fl.F → Point3f fl.F → fl.F → fl.F → Door fl.F
  new id first second width height = record {
    id = id;
    dir = LineSeg.new fl (record { pt_1 = first; pt_2 = second });
    width = width;
    height = height;
  }

  pub get_axis_aligned_bounding_box : Door fl.F → Cube fl.F
  get_axis_aligned_bounding_box d =
      get_axis_aligned_bound_box fl d.dir.line.pt_1 d.dir.line.pt_2 d.width d.height

  pub move_obj : Point3f fl.F → Door fl.F → Door fl.F
  move_obj delta d = record d {
    dir = record d.dir {
      line = record {
        pt_1 = add_pt fl d.dir.line.pt_1 delta;
        pt_2 = add_pt fl d.dir.line.pt_2 delta;
      };
    };
  }

  pub door_plane : Door fl.F → Plane fl.F
  door_plane d =
      let pt_2 = d.dir.line.pt_2 in
      record {
        pt_1 = d.dir.line.pt_1;
        pt_2 = pt_2;
        pt_3 = record { x = pt_2.x; y = pt_2.y; z = fl.add_f pt_2.z d.height };
      }

  unfoldable pub get_result : RefType → ℕ → Door fl.F → Option (RefResult fl.F fl.Json)
  get_result drawable result d = some empty_result
  get_result existence result d = some empty_result
  get_result axis_aligned_bound_box zero d = some (cube (get_axis_aligned_bounding_box d))
  get_result axis_aligned_bound_box (suc _) d = none
  get_result profile_point zero d = some (point d.dir.line.pt_1)
  get_result profile_point (suc zero) d = some (point d.dir.line.pt_2)
  get_result profile_point (suc (suc _)) d = none
  get_result profile_line zero d = some (LineSeg.get_result fl d.dir)
  get_result profile_line (suc _) d = none
  get_result profile_plane zero d = some (plane (door_plane d))
  get_result profile_plane (suc _) d = none
  get_result property result d = none
  get_result empty_type result d = none

  unfoldable pub get_results_for_type : RefType → Door fl.F → List (RefResult fl.F fl.Json)
  get_results_for_type drawable d = empty_result ∷ []
  get_results_for_type existence d = empty_result ∷ []
  get_results_for_type axis_aligned_bound_box d = cube (get_axis_aligned_bounding_box d) ∷ []
  get_results_for_type profile_point d = point d.dir.line.pt_1 ∷ point d.dir.line.pt_2 ∷ []
  get_results_for_type profile_line d = LineSeg.get_result fl d.dir ∷ []
  get_results_for_type profile_plane d = plane (door_plane d) ∷ []
  get_results_for_type property d = []
  get_results_for_type empty_type d = []

  unfoldable pub get_num_results_for_type : RefType → Door fl.F → ℕ
  get_num_results_for_type drawable d = 1
  get_num_results_for_type existence d = 1
  get_num_results_for_type axis_aligned_bound_box d = 1
  get_num_results_for_type profile_point d = 2
  get_num_results_for_type profile_line d = 1
  get_num_results_for_type profile_plane d = 1
  get_num_results_for_type property d = 0
  get_num_results_for_type empty_type d = 0

  unfoldable pub clear_refs : Door fl.F → Door fl.F
  clear_refs d = record d { dir = record d.dir { refer = none } }

  unfoldable pub get_refs : Door fl.F → List (Option Reference)
  get_refs d =
      let self_id_point_0 : RefId = record { id = d.id; ref_type = profile_point; index = 0 } in
      let self_id_point_1 : RefId = record { id = d.id; ref_type = profile_point; index = 1 } in
      let self_id_line : RefId = record { id = d.id; ref_type = profile_line; index = 0 } in
      let self_id_plane : RefId = record { id = d.id; ref_type = profile_plane; index = 0 } in
      let self_id_bbox : RefId = record {
        id = d.id;
        ref_type = axis_aligned_bound_box;
        index = 0;
      } in
      (elim d.dir.refer [
        | none ↦ none
        | some id ↦ some (record { owner = self_id_line; other = id })
      ])
      ∷ some (record { owner = self_id_bbox; other = self_id_line })
      ∷ some (record { owner = self_id_point_0; other = self_id_line })
      ∷ some (record { owner = self_id_point_1; other = self_id_line })
      ∷ some (record { owner = self_id_plane; other = self_id_line })
      ∷ []

  pub get_available_refs_for_type : RefType → Door fl.F → List ℕ
  get_available_refs_for_type profile_line d = elim d.dir.refer [ none ↦ 0 ∷ [] | some _ ↦ [] ]
  get_available_refs_for_type _ d = []

  unfoldable pub set_ref :
      RefType
      → ℕ
      → RefResult fl.F fl.Json
      → RefId
      → Option (RefResult fl.F fl.Json)
      → Door fl.F
      → Door fl.F
  set_ref profile_line zero result other_ref snap_pt d = record d {
    dir = LineSeg.set_reference fl result other_ref snap_pt d.dir;
  }
  set_ref _ index result other_ref snap_pt d = d

  unfoldable pub delete_ref : RefType → ℕ → Door fl.F → Door fl.F
  delete_ref profile_line zero d = record d { dir = record d.dir { refer = none } }
  delete_ref _ index d = d

  unfoldable pub set_associated_result_for_type :
      RefType → ℕ → Option (RefResult fl.F fl.Json) → Door fl.F → Door fl.F
  set_associated_result_for_type profile_line zero (some result) d = record d {
    dir = LineSeg.update fl result none d.dir;
  }
  set_associated_result_for_type _ index result_opt d = d
