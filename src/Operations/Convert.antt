-- ===== src/Operations/Convert.antt =====
-- operations/operations-server/src/obj_convert.rs: messages to objects and back, without the
-- encoding of representations.
pub mod Changes
use kafka_cad.Prelude.{ℕ, suc, String, Bool, Option, none, some, List, [], ◌∷◌, ◌≡◌, get_elem?}
use kafka_cad.Prelude.Int.{ℤ, pos, negsuc}
use kafka_cad.Prelude.Result.{Result, ok, err, map_err, ◌>>=◌}
use kafka_cad.Status.{Code, invalid_argument}
use kafka_cad.State.{
  RefIdMsg, ReferenceMsg, OptionReferenceMsg, DependenciesMsg, Bytes, ObjectMsg, ChangeType,
  ChangeMsg,
}
use kafka_cad.Redis.{Codec}
use kafka_cad.Maps.{IndexMap, IndexMaps}
use kafka_cad.Operations.Geom.{Point2f, Point3f, Floats}
use kafka_cad.Operations.References.{
  RefType, drawable, existence, axis_aligned_bound_box, profile_point, profile_line, profile_plane,
  property, empty_type, ObjId, RefId, Reference,
}
use kafka_cad.Operations.Errors.{ObjError, bincode_error, to_status}
use kafka_cad.Operations.Wall
use kafka_cad.Operations.Wall.{Wall}
use kafka_cad.Operations.Door
use kafka_cad.Operations.Door.{Door}
use kafka_cad.Operations.Sheet
use kafka_cad.Operations.Sheet.{Sheet}
use kafka_cad.Operations.Viewport
use kafka_cad.Operations.Viewport.{Viewport, ViewType}
use kafka_cad.Operations.DataBox.{DataBox, get_id, get_refs}

-- The packages uuid, bincode and indexmap.
pub record Packages (fl : Floats) : Type 0 where
  pub parse_str : String → Option ObjId
  pub to_string : ObjId → String
  pub parse_str-to_string : (id : ObjId) → parse_str (to_string id) ≡ some id
  pub boxes : Codec Bytes (DataBox fl)
  pub index_map : IndexMaps (Option (DataBox fl))

-- The numbers of the enum RefType of proto/object_state.proto.
abbrev pub proto_types : List RefType
proto_types =
    existence ∷ drawable ∷ axis_aligned_bound_box ∷ profile_point ∷ profile_line ∷ profile_plane
    ∷ property ∷ empty_type ∷ []

abbrev pub from_i32 : ℤ → Option RefType
from_i32 (pos n) = get_elem? proto_types n
from_i32 (negsuc n) = none

abbrev pub as_i32 : RefType → ℤ
as_i32 existence = pos 0
as_i32 drawable = pos 1
as_i32 axis_aligned_bound_box = pos 2
as_i32 profile_point = pos 3
as_i32 profile_line = pos 4
as_i32 profile_plane = pos 5
as_i32 property = pos 6
as_i32 empty_type = pos 7

unfoldable pub from_ref_type_msg : ℤ → Result Code RefType
from_ref_type_msg ref_type = elim (from_i32 ref_type) [
  | none ↦ err invalid_argument
  | some t ↦ ok t
]

-- Point2Msg, Point3Msg and Vector3Msg have the fields of the points.
pub to_point_2f : {F : Type 0} → Option (Point2f F) → Result Code (Point2f F)
to_point_2f none = err invalid_argument
to_point_2f (some pt_msg) = ok (record { x = pt_msg.x; y = pt_msg.y })

pub to_point_3f : {F : Type 0} → Option (Point3f F) → Result Code (Point3f F)
to_point_3f none = err invalid_argument
to_point_3f (some pt_msg) = ok (record { x = pt_msg.x; y = pt_msg.y; z = pt_msg.z })

pub to_vector_3f : {F : Type 0} → Option (Point3f F) → Result Code (Point3f F)
to_vector_3f none = err invalid_argument
to_vector_3f (some vec_msg) = ok (record { x = vec_msg.x; y = vec_msg.y; z = vec_msg.z })

pub record CustomViewMsg (F : Type 0) : Type 0 where
  pub camera_pos : Option (Point3f F)
  pub target : Option (Point3f F)

pub data ViewTypeMsg (F : Type 0) : Type 0 where
  top front left right back bottom : ViewTypeMsg F
  custom : CustomViewMsg F → ViewTypeMsg F

pub record CreateSheetInput (F : Type 0) : Type 0 where
  pub name : String
  pub print_size : Option (Point2f F)

pub record CreateViewportInput (F : Type 0) : Type 0 where
  pub sheet_id : String
  pub view_type : Option (ViewTypeMsg F)
  pub origin : Option (Point2f F)
  pub scale : F

pub data Change (Obj : Type 0) : Type 0 where
  add modify : Obj → Change Obj
  delete : ObjId → Change Obj

-- The id of a new object is an argument.
pub to_sheet : {F : Type 0} → ObjId → CreateSheetInput F → Result Code (Sheet F)
to_sheet id sheet = to_point_2f sheet.print_size >>= λ size. ok (Sheet.new id sheet.name size)

pub to_view : {F : Type 0} → Option (ViewTypeMsg F) → Result Code (ViewType F)
to_view none = err invalid_argument
to_view (some ViewTypeMsg.top) = ok ViewType.top
to_view (some ViewTypeMsg.front) = ok ViewType.front
to_view (some ViewTypeMsg.left) = ok ViewType.left
to_view (some ViewTypeMsg.right) = ok ViewType.right
to_view (some ViewTypeMsg.back) = ok ViewType.back
to_view (some ViewTypeMsg.bottom) = ok ViewType.bottom
to_view (some (ViewTypeMsg.custom msg)) = to_point_3f msg.camera_pos >>= λ camera_pos.
    to_point_3f msg.target >>= λ target. ok (ViewType.custom camera_pos target)

module _ (fl : Floats) where
  pub to_door :
      ObjId → Option (Point3f fl.F) → Option (Point3f fl.F) → fl.F → fl.F → Result Code (Door fl.F)
  to_door id first_pt second_pt width height = to_point_3f first_pt >>= λ first.
      to_point_3f second_pt >>= λ second. ok (Door.new fl id first second width height)

  pub to_wall :
      ObjId → Option (Point3f fl.F) → Option (Point3f fl.F) → fl.F → fl.F → Result Code (Wall fl.F)
  to_wall id first_pt second_pt width height = to_point_3f first_pt >>= λ first.
      to_point_3f second_pt >>= λ second. ok (Wall.new fl id first second width height)

module _ {fl : Floats} (pk : Packages fl) where
  unfoldable pub to_obj_id : String → Result Code ObjId
  to_obj_id id = elim (pk.parse_str id) [ none ↦ err invalid_argument | some parsed ↦ ok parsed ]

  pub to_viewport : ObjId → CreateViewportInput fl.F → Result Code (Viewport fl.F)
  to_viewport id viewport = to_view viewport.view_type >>= λ view.
      to_obj_id viewport.sheet_id >>= λ sheet_id. to_point_2f viewport.origin >>= λ origin.
      ok (Viewport.new id sheet_id view origin viewport.scale)

  unfoldable pub from_object_msg : ObjectMsg → Result ObjError (DataBox fl)
  from_object_msg msg = elim (pk.boxes.decode msg.obj_data) [
    | none ↦ err bincode_error
    | some obj ↦ ok obj
  ]

  pub from_obj_msg_opt : Option ObjectMsg → Result Code (DataBox fl)
  from_obj_msg_opt none = err invalid_argument
  from_obj_msg_opt (some msg) = map_err to_status (from_object_msg msg)

  pub from_obj_msgs : List ObjectMsg → Result Code (List (DataBox fl))
  from_obj_msgs [] = ok []
  from_obj_msgs (msg ∷ msgs) = map_err to_status (from_object_msg msg) >>= λ obj.
      from_obj_msgs msgs >>= λ objs. ok (obj ∷ objs)

  unfoldable pub from_ref_id_msg : Option RefIdMsg → Result Code RefId
  from_ref_id_msg none = err invalid_argument
  from_ref_id_msg (some msg) = to_obj_id msg.id >>= λ id. from_ref_type_msg msg.ref_type >>= λ t.
      ok (record { id = id; ref_type = t; index = msg.index })

  unfoldable pub from_ref_msgs : List ReferenceMsg → Result Code (List Reference)
  from_ref_msgs [] = ok []
  from_ref_msgs (msg ∷ msgs) = from_ref_id_msg msg.owner >>= λ owner.
      from_ref_id_msg msg.other >>= λ other.
      from_ref_msgs msgs >>= λ refers. ok (record { owner = owner; other = other } ∷ refers)

  unfoldable pub to_ref_id_msg : RefId → RefIdMsg
  to_ref_id_msg ref_id = record {
    id = pk.to_string ref_id.id;
    ref_type = as_i32 ref_id.ref_type;
    index = ref_id.index;
  }

  unfoldable pub to_ref_msgs : List (Option Reference) → List OptionReferenceMsg
  to_ref_msgs [] = []
  to_ref_msgs (some refer ∷ refs) =
      record {
        reference = some (record {
          owner = some (to_ref_id_msg refer.owner);
          other = some (to_ref_id_msg refer.other);
        });
      }
      ∷ to_ref_msgs refs
  to_ref_msgs (none ∷ refs) = record { reference = none } ∷ to_ref_msgs refs

  unfoldable pub to_object_msg : DataBox fl → Result ObjError ObjectMsg
  to_object_msg obj = ok (record {
    id = pk.to_string (get_id fl obj);
    dependencies = some (record { references = to_ref_msgs (get_refs fl obj) });
    obj_data = pk.boxes.encode obj;
  })

  pub to_object_msgs : List (DataBox fl) → Result Code (List ObjectMsg)
  to_object_msgs [] = ok []
  to_object_msgs (obj ∷ objs) = map_err to_status (to_object_msg obj) >>= λ msg.
      to_object_msgs objs >>= λ msgs. ok (msg ∷ msgs)

  -- One round of get_map_from_change_msgs.
  unfoldable pub insert_change :
      Option ChangeType
      → IndexMap (Option (DataBox fl))
      → Result Code (IndexMap (Option (DataBox fl)))
  insert_change none results = ok results
  insert_change (some (ChangeType.add object)) results = to_obj_id object.id >>= λ id.
      map_err to_status (from_object_msg object) >>= λ obj.
      ok (pk.index_map.insert id (some obj) results)
  insert_change (some (ChangeType.modify object)) results = to_obj_id object.id >>= λ id.
      map_err to_status (from_object_msg object) >>= λ obj.
      ok (pk.index_map.insert id (some obj) results)
  insert_change (some (ChangeType.delete msg)) results =
      to_obj_id msg.id >>= λ id. ok (pk.index_map.insert id none results)

  unfoldable pub insert_changes :
      List ChangeMsg → IndexMap (Option (DataBox fl)) → Result Code (IndexMap (Option (DataBox fl)))
  insert_changes [] results = ok results
  insert_changes (msg ∷ msgs) results =
      insert_change msg.change_type results >>= λ results'. insert_changes msgs results'

  unfoldable pub get_map_from_change_msgs :
      List ChangeMsg → Result Code (IndexMap (Option (DataBox fl)))
  get_map_from_change_msgs msgs = insert_changes msgs []

  unfoldable pub from_change_type : Option ChangeType → Result Code (Change (DataBox fl))
  from_change_type none = err invalid_argument
  from_change_type (some (ChangeType.add object)) =
      map_err to_status (from_object_msg object) >>= λ obj. ok (Change.add obj)
  from_change_type (some (ChangeType.modify object)) =
      map_err to_status (from_object_msg object) >>= λ obj. ok (Change.modify obj)
  from_change_type (some (ChangeType.delete msg)) = to_obj_id msg.id >>= λ id. ok (Change.delete id)

  pub from_change_msg : ChangeMsg → Result Code (Change (DataBox fl))
  from_change_msg msg = from_change_type msg.change_type

  pub from_change_msgs : List ChangeMsg → Result Code (List (Change (DataBox fl)))
  from_change_msgs [] = ok []
  from_change_msgs (msg ∷ msgs) =
      from_change_msg msg >>= λ change. from_change_msgs msgs >>= λ changes. ok (change ∷ changes)

  -- The change of an entry of the map, of the kind of the old change; none where an object that was
  -- added or modified is not there.
  unfoldable pub new_type :
      Option ChangeType → ObjId → Option (DataBox fl) → Result ObjError (Option (Option ChangeType))
  new_type none id obj_opt = ok (some none)
  new_type (some (ChangeType.add _)) id none = ok none
  new_type (some (ChangeType.add _)) id (some obj) =
      to_object_msg obj >>= λ msg. ok (some (some (ChangeType.add msg)))
  new_type (some (ChangeType.modify _)) id none = ok none
  new_type (some (ChangeType.modify _)) id (some obj) =
      to_object_msg obj >>= λ msg. ok (some (some (ChangeType.modify msg)))
  new_type (some (ChangeType.delete _)) id obj_opt =
      ok (some (some (ChangeType.delete (record { id = pk.to_string id }))))

  -- The loop of to_change_msgs, from an index on.
  unfoldable pub change_msgs_from :
      ℕ → List ChangeMsg → IndexMap (Option (DataBox fl)) → Result ObjError (List ChangeMsg)
  change_msgs_from i [] objects = ok []
  change_msgs_from i (old_change ∷ old_changes) objects = elim (pk.index_map.get_index objects i) [
    | none ↦ change_msgs_from (suc i) old_changes objects
    | some (id, obj_opt) ↦ new_type old_change.change_type id obj_opt >>= λ type_opt.
        change_msgs_from (suc i) old_changes objects >>= λ results. ok (elim type_opt [
          | none ↦ results
          | some t ↦
              record {
                user = old_change.user;
                change_type = t;
                change_source = old_change.change_source;
              }
              ∷ results
        ])
  ]

  unfoldable pub to_change_msgs :
      List ChangeMsg → IndexMap (Option (DataBox fl)) → Result ObjError (List ChangeMsg)
  to_change_msgs old_changes objects = change_msgs_from 0 old_changes objects
