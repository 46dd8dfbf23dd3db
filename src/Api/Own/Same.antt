-- ===== src/Api/Own/Same.antt =====
-- The requests of api/src/main.rs with two submit services that do the same with what is a
-- request's own.
use kafka_cad.Prelude.{
  String, ◌≡◌, refl, Bool, true, false, Option, none, some, List, [], ◌∷◌, map, inl, inr, ◌∙◌,
}
use kafka_cad.Prelude.Int.{ℤ}
use kafka_cad.Prelude.Exec.{Exec, pure}
use kafka_cad.Status.{Code}
use kafka_cad.State.{ObjectMsg}
use kafka_cad.Operations.Geom.{Point2f, Point3f}
use kafka_cad.Operations.Server.{WallMsg}
use kafka_cad.Operations.Convert.{ViewTypeMsg}
use kafka_cad.Submit.Server.{SubmitChangesInput}
use kafka_cad.Api.{OpPrefixMsg, Services, Request, created}
use kafka_cad.Api.Common
use kafka_cad.Api.Common.{
  add, modify, delete, client, undo_client, submit_client, objects_client, operations_client,
}
use kafka_cad.Api.Handlers
use kafka_cad.Api.Handlers.{
  Prefix, new, modified, ops_wall, ops_view, submit, join_pair, add_created, handle,
}
use kafka_cad.Api.Own.{
  prefix_of, takes_back, IsOwn, with_submit, add-AreActions, modify-AreActions, delete-AreActions,
  modified-AreActions, bind_cong, bind_same, own, Agree, submit_agrees, add_created_agrees,
  submitted_agrees, common_submitted_agrees,
}

module _ {F Rep W : Type 0} (services : Services F Rep W)
    (other : SubmitChangesInput → Exec W Code (List ℤ)) (prefix : OpPrefixMsg) (back : Bool)
    (same : (input : SubmitChangesInput) (w : W)
      → IsOwn (some prefix) back input
      → services.submit_changes input w ≡ other input w) where
  undo_latest_agrees :
      back ≡ true
      → (w : W)
      → Agree services other prefix back same (λ v. Handlers.undo_latest v (some prefix)) w
  unfolding Handlers.undo_latest new undo_client submit_client client
  undo_latest_agrees b w = bind_cong (undo_client services) _ _ w (λ _ t.
      bind_cong (submit_client services) _ _ t (λ _ u.
        bind_cong (services.undo_latest prefix.file prefix.user) _ _ u
          (λ changes v. submitted_agrees services other prefix back same changes v (inl b))))

  redo_latest_agrees :
      back ≡ true
      → (w : W)
      → Agree services other prefix back same (λ v. Handlers.redo_latest v (some prefix)) w
  unfolding Handlers.redo_latest new undo_client submit_client client
  redo_latest_agrees b w = bind_cong (undo_client services) _ _ w (λ _ t.
      bind_cong (submit_client services) _ _ t (λ _ u.
        bind_cong (services.redo_latest prefix.file prefix.user) _ _ u
          (λ changes v. submitted_agrees services other prefix back same changes v (inl b))))

  create_walls_agrees :
      (walls : List (WallMsg F)) (w : W)
      → Agree services other prefix back same (λ v. Handlers.create_walls v (some prefix) walls) w
  unfolding Handlers.create_walls new operations_client submit_client client
  create_walls_agrees walls w = bind_cong (operations_client services) _ _ w (λ _ t.
      bind_cong (submit_client services) _ _ t (λ _ u.
        bind_cong (services.create_walls (map ops_wall walls)) _ _ u (λ objects v.
          bind_same (λ offset. pure (created (map (λ obj. obj.id) objects) offset))
            (submit_agrees services other prefix back same _ v
              (inr (add-AreActions prefix.user objects))))))

  move_objects_agrees :
      (obj_ids : List String) (delta : Option (Point3f F)) (w : W)
      → Agree services other prefix back same
          (λ v. Handlers.move_objects v (some prefix) obj_ids delta)
          w
  unfolding Handlers.move_objects Common.get_objects new objects_client operations_client
      submit_client client
  move_objects_agrees obj_ids delta w = bind_cong (objects_client services) _ _ w (λ _ t.
      bind_cong (operations_client services) _ _ t (λ _ u.
        bind_cong (submit_client services) _ _ u (λ _ v.
          bind_cong (Common.get_objects services prefix.file obj_ids prefix.offset false) _ _ v
            (λ objects x. bind_cong (services.move_objects objects delta) _ _ x (λ moved y.
              common_submitted_agrees services other prefix back same _ y
                (modify-AreActions prefix.user moved))))))

  join_pair_agrees :
      (guess : Option (Point3f F)) (objects : List ObjectMsg) (w : W)
      → Agree services other prefix back same
          (λ v. join_pair v (own services other prefix back same) guess objects)
          w
  unfolding join_pair
  join_pair_agrees guess [] w = refl
  join_pair_agrees guess (a ∷ []) w = refl
  join_pair_agrees guess (a ∷ b ∷ []) w = refl
  join_pair_agrees guess (a ∷ b ∷ c ∷ objects) w = join_pair_agrees guess (b ∷ c ∷ objects) w

  join_objects_at_point_agrees :
      (first_id second_id : String) (guess : Option (Point3f F)) (w : W)
      → Agree services other prefix back same
          (λ v. Handlers.join_objects_at_point v (some prefix) first_id second_id guess)
          w
  unfolding Handlers.join_objects_at_point Common.get_objects new objects_client operations_client
      submit_client client
  join_objects_at_point_agrees first_id second_id guess w =
      bind_cong (objects_client services) _ _ w (λ _ t.
        bind_cong (operations_client services) _ _ t (λ _ u.
          bind_cong (submit_client services) _ _ u (λ _ v.
            bind_cong
              (Common.get_objects services prefix.file (first_id ∷ second_id ∷ []) prefix.offset
                true)
              _ _ v
              (λ objects x.
                bind_same _ (join_pair_agrees guess objects x)
                ∙ bind_cong
                    (join_pair (with_submit services other) (own services other prefix back same)
                      guess objects)
                    _ _ x
                    (λ output y.
                      common_submitted_agrees services other prefix back same _ y
                        (modified-AreActions prefix.user output.0 output.1))))))

  delete_objects_agrees :
      (obj_ids : List String) (w : W)
      → Agree services other prefix back same
          (λ v. Handlers.delete_objects v (some prefix) obj_ids)
          w
  unfolding Handlers.delete_objects new submit_client client
  delete_objects_agrees obj_ids w = bind_cong (submit_client services) _ _ w (λ _ t.
      common_submitted_agrees services other prefix back same _ t
        (delete-AreActions prefix.user obj_ids))

  create_sheet_agrees :
      (name : String) (size : Option (Point2f F)) (w : W)
      → Agree services other prefix back same
          (λ v. Handlers.create_sheet v (some prefix) name size)
          w
  unfolding Handlers.create_sheet new operations_client submit_client client
  create_sheet_agrees name size w = bind_cong (operations_client services) _ _ w (λ _ t.
      bind_cong (submit_client services) _ _ t (λ _ u.
        bind_cong (services.create_sheet (record { name = name; print_size = size })) _ _ u
          (add_created_agrees services other prefix back same)))

  create_viewport_agrees :
      (sheet_id : String) (view : Option (ViewTypeMsg F)) (origin : Option (Point2f F)) (scale : F)
      (w : W)
      → Agree services other prefix back same
          (λ v. Handlers.create_viewport v (some prefix) sheet_id view origin scale)
          w
  unfolding Handlers.create_viewport new operations_client submit_client client
  create_viewport_agrees sheet_id view origin scale w =
      bind_cong (operations_client services) _ _ w (λ _ t.
        bind_cong (submit_client services) _ _ t (λ _ u. bind_cong (ops_view view) _ _ u (λ view' v.
          bind_cong
            (services.create_viewport (record {
              sheet_id = sheet_id;
              view_type = some view';
              origin = origin;
              scale = scale;
            }))
            _ _ v (add_created_agrees services other prefix back same))))

module _ {F Rep W : Type 0} (services : Services F Rep W)
    (other : SubmitChangesInput → Exec W Code (List ℤ)) where
  -- Two submit services that do the same with each submission for the file, user and offset of a
  -- request's prefix, whose changes are user actions by that user unless the undo service made
  -- them, are the same to the request: its answer, and what it leaves of all services.
  pub handle-own :
      (request : Request F)
      → ((input : SubmitChangesInput) (w : W)
          → IsOwn (prefix_of request) (takes_back request) input
          → services.submit_changes input w ≡ other input w)
      → (w : W) → handle services request w ≡ handle (with_submit services other) request w
  unfolding handle Handlers.begin_undo_event Handlers.undo_latest Handlers.redo_latest
      Handlers.create_walls Handlers.move_objects Handlers.join_objects_at_point
      Handlers.delete_objects Handlers.create_sheet Handlers.create_viewport Common.get_objects new
      undo_client objects_client operations_client submit_client client
  handle-own (Request.begin_undo_event file user) same w = refl
  handle-own (Request.undo_latest none) same w = refl
  handle-own (Request.undo_latest (some p)) same w =
      undo_latest_agrees services other p true same refl w
  handle-own (Request.redo_latest none) same w = refl
  handle-own (Request.redo_latest (some p)) same w =
      redo_latest_agrees services other p true same refl w
  handle-own (Request.create_walls none walls) same w = refl
  handle-own (Request.create_walls (some p) walls) same w =
      create_walls_agrees services other p false same walls w
  handle-own (Request.move_objects none obj_ids delta) same w = refl
  handle-own (Request.move_objects (some p) obj_ids delta) same w =
      move_objects_agrees services other p false same obj_ids delta w
  handle-own (Request.join_objects_at_point none first_id second_id guess) same w = refl
  handle-own (Request.join_objects_at_point (some p) first_id second_id guess) same w =
      join_objects_at_point_agrees services other p false same first_id second_id guess w
  handle-own (Request.delete_objects none obj_ids) same w = refl
  handle-own (Request.delete_objects (some p) obj_ids) same w =
      delete_objects_agrees services other p false same obj_ids w
  handle-own (Request.create_sheet none name size) same w = refl
  handle-own (Request.create_sheet (some p) name size) same w =
      create_sheet_agrees services other p false same name size w
  handle-own (Request.create_viewport none sheet_id view origin scale) same w = refl
  handle-own (Request.create_viewport (some p) sheet_id view origin scale) same w =
      create_viewport_agrees services other p false same sheet_id view origin scale w
