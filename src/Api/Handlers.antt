-- ===== src/Api/Handlers.antt =====
-- The requests of api/src/main.rs, as calls of the other services in their order.
use kafka_cad.Prelude.{String, true, false, Option, none, some, List, [], ◌∷◌, ◌++◌, map, get_last?}
use kafka_cad.Prelude.Int.{ℤ}
use kafka_cad.Prelude.Result.{Result, ok, err}
use kafka_cad.Prelude.Exec.{Exec, ◌>>=◌, ◌>>◌, pure, fail}
use kafka_cad.Status.{Code, invalid_argument, not_found}
use kafka_cad.State.{ObjectMsg, ChangeMsg}
use kafka_cad.Operations.Geom.{Point2f, Point3f}
use kafka_cad.Operations.References.{profile_point}
use kafka_cad.Operations.Server.{WallMsg}
use kafka_cad.Operations.Convert.{ViewTypeMsg, as_i32}
use kafka_cad.Api.{OpPrefixMsg, Services, Request, Response, began, submitted, created}
use kafka_cad.Api.Common
use kafka_cad.Api.Common.{
  add, modify, delete, last_offset, undo_client, submit_client, rep_cache_client, objects_client,
  operations_client,
}

pub record Prefix : Type 0 where
  pub file : String
  pub user : String
  pub offset : ℤ

-- Prefix::new
unfoldable pub new : {W : Type 0} → Option OpPrefixMsg → Exec W Code Prefix
new none = fail invalid_argument
new (some prefix) = pure (record { file = prefix.file; user = prefix.user; offset = prefix.offset })

abbrev pub ops_wall : {F : Type 0} → WallMsg F → WallMsg F
ops_wall wall = record {
  first_pt = wall.first_pt;
  second_pt = wall.second_pt;
  width = wall.width;
  height = wall.height;
}

-- The match on the view type in create_viewport.
unfoldable pub ops_view : {F W : Type 0} → Option (ViewTypeMsg F) → Exec W Code (ViewTypeMsg F)
ops_view none = fail invalid_argument
ops_view (some ViewTypeMsg.top) = pure ViewTypeMsg.top
ops_view (some ViewTypeMsg.front) = pure ViewTypeMsg.front
ops_view (some ViewTypeMsg.left) = pure ViewTypeMsg.left
ops_view (some ViewTypeMsg.right) = pure ViewTypeMsg.right
ops_view (some ViewTypeMsg.back) = pure ViewTypeMsg.back
ops_view (some ViewTypeMsg.bottom) = pure ViewTypeMsg.bottom
ops_view (some (ViewTypeMsg.custom msg)) =
    pure (ViewTypeMsg.custom (record { camera_pos = msg.camera_pos; target = msg.target }))

abbrev pub modified : String → Option ObjectMsg → List ChangeMsg
modified user none = []
modified user (some obj) = modify user obj ∷ []

module _ {F Rep W : Type 0} (services : Services F Rep W) where
  -- The submission that most requests end with.
  unfoldable pub submit : Prefix → List ChangeMsg → Exec W Code ℤ
  submit prefix changes =
      services.submit_changes (record {
        file = prefix.file;
        user = prefix.user;
        offset = prefix.offset;
        changes = changes;
      })
      >>= last_offset

  unfoldable pub begin_undo_event : String → String → Exec W Code Response
  begin_undo_event file user = do
    undo_client services
    services.begin_undo_event file user
    pure began

  unfoldable pub undo_latest : Option OpPrefixMsg → Exec W Code Response
  undo_latest prefix_opt = do
    undo_client services
    submit_client services
    prefix ← new prefix_opt
    changes ← services.undo_latest prefix.file prefix.user
    offset ← submit prefix changes
    pure (submitted offset)

  unfoldable pub redo_latest : Option OpPrefixMsg → Exec W Code Response
  redo_latest prefix_opt = do
    undo_client services
    submit_client services
    prefix ← new prefix_opt
    changes ← services.redo_latest prefix.file prefix.user
    offset ← submit prefix changes
    pure (submitted offset)

  unfoldable pub create_walls : Option OpPrefixMsg → List (WallMsg F) → Exec W Code Response
  create_walls prefix_opt walls = do
    operations_client services
    submit_client services
    prefix ← new prefix_opt
    objects ← services.create_walls (map ops_wall walls)
    offset ← submit prefix (map (add prefix.user) objects)
    pure (created (map (λ obj. obj.id) objects) offset)

  unfoldable pub move_objects :
      Option OpPrefixMsg → List String → Option (Point3f F) → Exec W Code Response
  move_objects prefix_opt obj_ids delta = do
    objects_client services
    operations_client services
    submit_client services
    prefix ← new prefix_opt
    objects ← Common.get_objects services prefix.file obj_ids prefix.offset false
    moved ← services.move_objects objects delta
    offset ←
        Common.submit_changes services prefix.file prefix.user prefix.offset
          (map (modify prefix.user) moved)
    pure (submitted offset)

  -- The two objects come off the end of the list.
  unfoldable pub join_pair :
      Prefix
      → Option (Point3f F)
      → List ObjectMsg
      → Exec W Code (Option ObjectMsg × Option ObjectMsg)
  join_pair prefix guess [] =
      services.join_objects none none (as_i32 profile_point) (as_i32 profile_point) guess
  join_pair prefix guess (obj ∷ []) =
      services.join_objects none (some obj) (as_i32 profile_point) (as_i32 profile_point) guess
  join_pair prefix guess (first ∷ second ∷ []) =
      services.join_objects (some first) (some second) (as_i32 profile_point) (as_i32 profile_point)
        guess
  join_pair prefix guess (obj ∷ first ∷ second ∷ objects) =
      join_pair prefix guess (first ∷ second ∷ objects)

  unfoldable pub join_objects_at_point :
      Option OpPrefixMsg → String → String → Option (Point3f F) → Exec W Code Response
  join_objects_at_point prefix_opt first_id second_id guess = do
    objects_client services
    operations_client services
    submit_client services
    prefix ← new prefix_opt
    objects ← Common.get_objects services prefix.file (first_id ∷ second_id ∷ []) prefix.offset true
    output ← join_pair prefix guess objects
    offset ←
        Common.submit_changes services prefix.file prefix.user prefix.offset
          (modified prefix.user output.0 ++ modified prefix.user output.1)
    pure (submitted offset)

  unfoldable pub delete_objects : Option OpPrefixMsg → List String → Exec W Code Response
  delete_objects prefix_opt obj_ids = do
    submit_client services
    prefix ← new prefix_opt
    offset ←
        Common.submit_changes services prefix.file prefix.user prefix.offset
          (map (delete prefix.user) obj_ids)
    pure (submitted offset)

  -- The end of create_sheet and create_viewport.
  unfoldable pub add_created : Prefix → Option ObjectMsg → Exec W Code Response
  add_created prefix none = fail not_found
  add_created prefix (some obj) = do
    offset ← submit prefix (add prefix.user obj ∷ [])
    pure (created (obj.id ∷ []) offset)

  unfoldable pub create_sheet :
      Option OpPrefixMsg → String → Option (Point2f F) → Exec W Code Response
  create_sheet prefix_opt name print_size = do
    operations_client services
    submit_client services
    prefix ← new prefix_opt
    object ← services.create_sheet (record { name = name; print_size = print_size })
    add_created prefix object

  unfoldable pub create_viewport :
      Option OpPrefixMsg
      → String
      → Option (ViewTypeMsg F)
      → Option (Point2f F)
      → F
      → Exec W Code Response
  create_viewport prefix_opt sheet_id view_type origin scale = do
    operations_client services
    submit_client services
    prefix ← new prefix_opt
    view ← ops_view view_type
    object ←
        services.create_viewport
          (record { sheet_id = sheet_id; view_type = some view; origin = origin; scale = scale })
    add_created prefix object

  -- The loop of open_file: what is sent to the client. An id or a representation that is an error
  -- is left out.
  pub send_reps : String → List (Result Code String) → W → List (Option Rep) × W
  send_reps file [] w = ([], w)
  send_reps file (err e ∷ ids) w = send_reps file ids w
  send_reps file (ok obj_id ∷ ids) w =
      let (answer, w') = services.get_object_representations file (obj_id ∷ []) w in
      let (sent, w'') = send_reps file ids w' in
      elim answer [ err e ↦ (sent, w'') | ok reps ↦ (get_last? reps ∷ sent, w'') ]

  unfoldable pub open_file : String → Exec W Code (List (Option Rep))
  open_file file = do
    rep_cache_client services
    objects_client services
    ids ← services.get_latest_object_list file
    λ w. let (sent, w') = send_reps file ids w in (ok sent, w')

  unfoldable pub handle : Request F → Exec W Code Response
  handle (Request.begin_undo_event file user) = begin_undo_event file user
  handle (Request.undo_latest prefix) = undo_latest prefix
  handle (Request.redo_latest prefix) = redo_latest prefix
  handle (Request.create_walls prefix walls) = create_walls prefix walls
  handle (Request.move_objects prefix obj_ids delta) = move_objects prefix obj_ids delta
  handle (Request.join_objects_at_point prefix first_id second_id guess) =
      join_objects_at_point prefix first_id second_id guess
  handle (Request.delete_objects prefix obj_ids) = delete_objects prefix obj_ids
  handle (Request.create_sheet prefix name print_size) = create_sheet prefix name print_size
  handle (Request.create_viewport prefix sheet_id view_type origin scale) =
      create_viewport prefix sheet_id view_type origin scale
