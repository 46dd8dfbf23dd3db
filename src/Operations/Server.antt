-- ===== src/Operations/Server.antt =====
-- operations/operations-server/src/main.rs: the requests of the operations service. The ids of new
-- objects are arguments. client_representation is not modelled: it asks the geometry kernel.
pub mod Sent
use kafka_cad.Prelude.{ℕ, suc, String, Option, none, some, List, [], ◌∷◌}
use kafka_cad.Prelude.Int.{ℤ}
use kafka_cad.Prelude.Result.{Result, ok, err, map_err, ◌>>=◌}
use kafka_cad.Status.{Code}
use kafka_cad.State.{ReferenceMsg, ObjectMsg, ChangeMsg}
use kafka_cad.Operations.Geom.{Point3f, Floats}
use kafka_cad.Operations.References.{ObjId}
use kafka_cad.Operations.Errors.{to_status}
use kafka_cad.Operations.DataBox.{DataBox, wall, sheet, viewport, data_box}
use kafka_cad.Operations.Joins.{snap_to_ref, join_refs}
use kafka_cad.Operations.UpdateAll.{update_all}
use kafka_cad.Operations.Ops
use kafka_cad.Operations.Convert.{
  Packages, CreateSheetInput, CreateViewportInput, to_wall, to_sheet, to_viewport, to_point_3f,
  to_vector_3f, from_ref_type_msg, from_obj_msg_opt, from_obj_msgs, from_ref_msgs, to_object_msg,
  to_object_msgs, get_map_from_change_msgs, to_change_msgs,
}

pub record WallMsg (F : Type 0) : Type 0 where
  pub first_pt : Option (Point3f F)
  pub second_pt : Option (Point3f F)
  pub width : F
  pub height : F

module _ {fl : Floats} (pk : Packages fl) where
  -- The wall at an index gets the id at this index.
  pub create_walls_from : (ℕ → ObjId) → ℕ → List (WallMsg fl.F) → Result Code (List ObjectMsg)
  create_walls_from new_v4 index [] = ok []
  create_walls_from new_v4 index (wall_msg ∷ walls) =
      to_wall fl (new_v4 index) wall_msg.first_pt wall_msg.second_pt wall_msg.width wall_msg.height
      >>= λ w. map_err to_status (to_object_msg pk (wall w)) >>= λ msg.
          create_walls_from new_v4 (suc index) walls >>= λ results. ok (msg ∷ results)

  pub create_walls : (ℕ → ObjId) → List (WallMsg fl.F) → Result Code (List ObjectMsg)
  create_walls new_v4 walls = create_walls_from new_v4 0 walls

  pub move_objects : List ObjectMsg → Option (Point3f fl.F) → Result Code (List ObjectMsg)
  move_objects objects delta = from_obj_msgs pk objects >>= λ objs.
      to_vector_3f delta >>= λ vec. to_object_msgs pk (Ops.move_objects (data_box fl) objs vec)

  pub join_object_to_other :
      Option ObjectMsg → Option ObjectMsg → ℤ → Option (Point3f fl.F) → Result Code ObjectMsg
  join_object_to_other to_join join_to looking_for guess = from_obj_msg_opt pk to_join >>= λ obj.
      from_obj_msg_opt pk join_to >>= λ other_obj. from_ref_type_msg looking_for >>= λ ref_type.
      to_point_3f guess >>= λ pt.
      map_err to_status (snap_to_ref (data_box fl) obj other_obj ref_type pt) >>= λ joined.
      map_err to_status (to_object_msg pk joined)

  pub join_objects :
      Option ObjectMsg
      → Option ObjectMsg
      → ℤ
      → ℤ
      → Option (Point3f fl.F)
      → Result Code (ObjectMsg × ObjectMsg)
  join_objects first_obj second_obj first_wants second_wants guess =
      from_obj_msg_opt pk first_obj >>= λ first. from_obj_msg_opt pk second_obj >>= λ second.
      from_ref_type_msg first_wants >>= λ first_type.
      from_ref_type_msg second_wants >>= λ second_type. to_point_3f guess >>= λ pt.
      map_err to_status (join_refs (data_box fl) first second first_type second_type pt)
      >>= λ joined. map_err to_status (to_object_msg pk joined.0) >>= λ first_msg.
          map_err to_status (to_object_msg pk joined.1) >>= λ second_msg. ok (first_msg, second_msg)

  pub update_objects : List ReferenceMsg → List ChangeMsg → Result Code (List ChangeMsg)
  update_objects obj_refs objects = from_ref_msgs pk obj_refs >>= λ refers.
      get_map_from_change_msgs pk objects >>= λ objs.
      map_err to_status
        (to_change_msgs pk objects (update_all (data_box fl) pk.index_map objs refers))

  pub create_sheet : ObjId → CreateSheetInput fl.F → Result Code ObjectMsg
  create_sheet id sheet_msg =
      to_sheet id sheet_msg >>= λ s. map_err to_status (to_object_msg pk (sheet s))

  pub create_viewport : ObjId → CreateViewportInput fl.F → Result Code ObjectMsg
  create_viewport id viewport_msg =
      to_viewport pk id viewport_msg >>= λ v. map_err to_status (to_object_msg pk (viewport v))
