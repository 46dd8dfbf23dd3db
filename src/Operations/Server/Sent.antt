-- ===== src/Operations/Server/Sent.antt =====
-- What update_objects answers.
use kafka_cad.Prelude.{◌≡◌, refl, List, [], ◌∷◌, map}
use kafka_cad.Prelude.Result.{ok}
use kafka_cad.State.{ReferenceMsg, ChangeMsg}
use kafka_cad.Prelude.{some}
use kafka_cad.Operations.Geom.{Floats}
use kafka_cad.Operations.References.{
  RefType, drawable, existence, axis_aligned_bound_box, profile_point, profile_line, profile_plane,
  property, empty_type, RefId, Reference,
}
use kafka_cad.Operations.DataBox.{data_box}
use kafka_cad.Operations.DataBox.Laws.{set_associated_result_for_type-get_id}
use kafka_cad.Operations.UpdateAll.{update_all}
use kafka_cad.Operations.UpdateAll.Frame.{update_all-AllKept}
use kafka_cad.Operations.Convert.{
  Packages, from_i32, as_i32, from_ref_type_msg, from_ref_id_msg, to_ref_id_msg, to_obj_id,
  from_ref_msgs, get_map_from_change_msgs, to_change_msgs,
}
use kafka_cad.Operations.Convert.Changes.{
  Objects, AreReadAs, AreSentAs, insert_changes_lem, change_msgs_lem,
}
use kafka_cad.Operations.Server.{update_objects}

from_i32-as_i32 : (t : RefType) → from_i32 (as_i32 t) ≡ some t
from_i32-as_i32 drawable = refl
from_i32-as_i32 existence = refl
from_i32-as_i32 axis_aligned_bound_box = refl
from_i32-as_i32 profile_point = refl
from_i32-as_i32 profile_line = refl
from_i32-as_i32 profile_plane = refl
from_i32-as_i32 property = refl
from_i32-as_i32 empty_type = refl

module _ {fl : Floats} (pk : Packages fl) where
  abbrev pub reference_msg_of : Reference → ReferenceMsg
  reference_msg_of refer = record {
    owner = some (to_ref_id_msg pk refer.owner);
    other = some (to_ref_id_msg pk refer.other);
  }

  pub from_ref_id_msg-to_ref_id_msg :
      (r : RefId) → from_ref_id_msg pk (some (to_ref_id_msg pk r)) ≡ ok r
  unfolding from_ref_id_msg to_ref_id_msg to_obj_id from_ref_type_msg
  from_ref_id_msg-to_ref_id_msg r = rw (
    pk.parse_str-to_string r.id,
    from_i32-as_i32 r.ref_type,
    from_ref_id_msg,
    to_obj_id,
    from_ref_type_msg,
  )

  -- References come back from their messages, in their order.
  pub from_ref_msgs-map :
      (refers : List Reference) → from_ref_msgs pk (map reference_msg_of refers) ≡ ok refers
  unfolding from_ref_msgs
  from_ref_msgs-map [] = refl
  from_ref_msgs-map (refer ∷ refers) = rw (
    from_ref_id_msg-to_ref_id_msg refer.owner,
    from_ref_id_msg-to_ref_id_msg refer.other,
    from_ref_msgs-map refers,
    from_ref_msgs,
  )

  -- Where the references and the changes can be read and each change is of another object,
  -- update_objects answers one change for each change, in their order: of the same kind and object,
  -- by the same user and with the same source, with the object as update_all leaves it.
  pub update_objects-AreSentAs :
      (obj_refs : List ReferenceMsg) (refers : List Reference) (msgs : List ChangeMsg)
      (objs : Objects pk)
      → from_ref_msgs pk obj_refs ≡ ok refers
      → AreReadAs pk [] msgs objs
      → (changes : List ChangeMsg) × (update_objects pk obj_refs msgs ≡ ok changes)
        × AreSentAs pk msgs (update_all (data_box fl) pk.index_map objs refers) changes
  unfolding update_objects get_map_from_change_msgs to_change_msgs
  update_objects-AreSentAs obj_refs refers msgs objs p r =
      let done = update_all (data_box fl) pk.index_map objs refers in
      let (changes, runs, sent) = change_msgs_lem pk msgs [] objs [] done r (
        update_all-AllKept (data_box fl) pk.index_map (set_associated_result_for_type-get_id fl)
          objs refers) in
      (changes, rw (p, insert_changes_lem pk msgs [] objs r, runs, update_objects), sent)
