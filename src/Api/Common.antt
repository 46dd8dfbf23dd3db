-- ===== src/Api/Common.antt =====
-- api/src/common.rs: what the requests of the API share.
use kafka_cad.Prelude.{
  String, Bool, Option, none, some, List, [], ◌∷◌, map, get_last?, if◌then◌else◌,
}
use kafka_cad.Prelude.Int.{ℤ}
use kafka_cad.Prelude.Result.{Result, ok, err}
use kafka_cad.Prelude.Exec.{Exec, ◌>>=◌, pure, fail}
use kafka_cad.Status.{Code, not_found, unavailable, aborted, out_of_range}
use kafka_cad.State.{ObjectMsg, ChangeType, user_action, ChangeMsg, OptionChangeMsg}
use kafka_cad.Api.{
  Services, Service, undo_service, submit_service, rep_cache_service, objects_service,
  operations_service,
}

-- The object of a change that adds or modifies one.
abbrev pub type_object : Option ChangeType → Option ObjectMsg
type_object none = none
type_object (some (ChangeType.add msg)) = some msg
type_object (some (ChangeType.modify msg)) = some msg
type_object (some (ChangeType.delete msg)) = none

abbrev pub object_of : Option ChangeMsg → Option ObjectMsg
object_of none = none
object_of (some change) = type_object change.change_type

-- `objects.push(msg)`, and what the loop goes on to answer.
abbrev pub ahead : ObjectMsg → Result Code (List ObjectMsg) → Result Code (List ObjectMsg)
ahead msg (err e) = err e
ahead msg (ok objects) = ok (msg ∷ objects)

-- The loop of get_objects over the answers and the ids, which ends with the shorter one.
unfoldable pub collect_objects :
    Bool → List OptionChangeMsg → List String → Result Code (List ObjectMsg)
collect_objects error_on_missing [] ids = ok []
collect_objects error_on_missing (change_opt ∷ changes) [] = ok []
collect_objects error_on_missing (change_opt ∷ changes) (id ∷ ids) =
    let rest = collect_objects error_on_missing changes ids in
    elim (object_of change_opt.change) [
      | none ↦ if error_on_missing then err not_found else rest
      | some msg ↦ ahead msg rest
    ]

unfoldable pub add : String → ObjectMsg → ChangeMsg
add user obj = record {
  user = user;
  change_type = some (ChangeType.add obj);
  change_source = some user_action;
}

unfoldable pub modify : String → ObjectMsg → ChangeMsg
modify user obj = record {
  user = user;
  change_type = some (ChangeType.modify obj);
  change_source = some user_action;
}

unfoldable pub delete : String → String → ChangeMsg
delete user obj_id = record {
  user = user;
  change_type = some (ChangeType.delete (record { id = obj_id }));
  change_source = some user_action;
}

-- `output.offsets.pop()`, and the error where there is none.
unfoldable pub last_offset : {W : Type 0} → List ℤ → Exec W Code ℤ
last_offset offsets = elim (get_last? offsets) [
  | some offset ↦ pure offset
  | none ↦ fail out_of_range
]

module _ {F Rep W : Type 0} (services : Services F Rep W) where
  unfoldable pub client : Service → Exec W Code (Unit {0})
  client service w =
      let (connected, w') = services.connect service w in
      if connected then (ok tt, w') else (err unavailable, w')

  unfoldable pub undo_client : Exec W Code (Unit {0})
  undo_client = client undo_service

  unfoldable pub submit_client : Exec W Code (Unit {0})
  submit_client = client submit_service

  unfoldable pub rep_cache_client : Exec W Code (Unit {0})
  rep_cache_client = client rep_cache_service

  unfoldable pub objects_client : Exec W Code (Unit {0})
  objects_client = client objects_service

  unfoldable pub operations_client : Exec W Code (Unit {0})
  operations_client = client operations_service

  unfoldable pub get_objects : String → List String → ℤ → Bool → Exec W Code (List ObjectMsg)
  get_objects file obj_ids offset error_on_missing =
      services.get_objects (record {
        file = file;
        obj_ids = map (λ obj_id. record { offset = offset; obj_id = obj_id }) obj_ids;
      })
      >>= λ changes w. (collect_objects error_on_missing changes obj_ids, w)

  unfoldable pub submit_changes : String → String → ℤ → List ChangeMsg → Exec W Code ℤ
  submit_changes file user offset [] = fail aborted
  submit_changes file user offset (change ∷ changes) =
      services.submit_changes
        (record { file = file; user = user; offset = offset; changes = change ∷ changes })
      >>= last_offset
