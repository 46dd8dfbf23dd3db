-- ===== src/Undo.antt =====
-- undo/src/cache.rs: each user's stacks of undo and redo events of a file. The events are lists of
-- entries, and the user's changes that come back over the commit log fill and empty them.
pub mod Invert
pub mod Spec
pub mod Names
pub mod View
pub mod Refines
pub mod Requests
pub mod Rounds
pub mod Server
use kafka_cad.Prelude.{
  ℕ, zero, String, Bool, true, false, Option, none, some, List, [], ◌∷◌, Eq, string_eq, nat_eq,
  ◌==◌, if◌then◌else◌,
}
use kafka_cad.Prelude.Int.{ℤ}
use kafka_cad.Prelude.Text.{colon}
use kafka_cad.Prelude.Result.{Result, ok, err}
use kafka_cad.Prelude.Exec.{Exec, ◌>>=◌, ◌>>◌, pure, fail, gets, modifies}
use kafka_cad.State.{
  ChangeType, add, modify, delete, ChangeSource, user_action, undo, redo, ChangeMsg,
}
use kafka_cad.Redis.{Codec, Redis}

pub data UndoError : Type 0 where
  no_undo_event : String → String → UndoError
  no_obj_in_undo_event : String → String → String → UndoError
  prost_decode_error bincode_error database_error : UndoError

pub data StatusCode : Type 0 where
  internal not_found : StatusCode

-- impl Into<tonic::Status> for UndoError
pub status_code : UndoError → StatusCode
status_code (no_undo_event _ _) = not_found
status_code (no_obj_in_undo_event _ _ _) = not_found
status_code prost_decode_error = internal
status_code bincode_error = internal
status_code database_error = internal

pub undo_stack : String → String → String
undo_stack file user = colon file (colon user "undo")

pub redo_stack : String → String → String
redo_stack file user = colon file (colon user "redo")

pub data UndoChangeType : Type 0 where
  added modified deleted not_set : UndoChangeType

pub record UndoEntry : Type 0 where
  pub offset : ℤ
  pub obj_id : String
  pub change_type : UndoChangeType

pub record Services (Blob : Type 0) ⦃e : Eq Blob⦄ : Type 1 where
  pub redis : Redis Blob
  pub open redis use *
  pub entries : Codec Blob UndoEntry
  pub changes : Codec Blob ChangeMsg
  pub texts : Codec Blob String

-- The first match of update_undo_cache_inner.
unfoldable pub entry_kind : Option ChangeType → String × UndoChangeType
entry_kind (some (add inner_msg)) = (inner_msg.id, added)
entry_kind (some (modify inner_msg)) = (inner_msg.id, modified)
entry_kind (some (delete inner_msg)) = (inner_msg.id, deleted)
entry_kind none = ("", not_set)

-- The loop of pop_entry_from_event: the first entry of the object.
unfoldable pub find_entry : String → List UndoEntry → Option UndoEntry
find_entry obj_id [] = none
find_entry obj_id (entry ∷ entries) =
    if entry.obj_id == obj_id then some entry else find_entry obj_id entries

module _ {Blob : Type 0} ⦃e : Eq Blob⦄ (s : Services Blob) where
  pub add_entry_to_event : String → String → ℤ → UndoChangeType → Exec s.Db UndoError (Unit {0})
  add_entry_to_event event obj_id offset change_type = modifies (
      s.rpush event
        (s.entries.encode (record { offset = offset; obj_id = obj_id; change_type = change_type })))

  pub decode_entries : List Blob → Result UndoError (List UndoEntry)
  decode_entries [] = ok []
  decode_entries (serialized ∷ rest) = elim (s.entries.decode serialized) [
    | none ↦ err bincode_error
    | some entry ↦ elim (decode_entries rest) [
      | err error ↦ err error
      | ok results ↦ ok (entry ∷ results)
    ]
  ]

  pub get_event_entries : String → Exec s.Db UndoError (List UndoEntry)
  get_event_entries event = gets (λ db. decode_entries (s.lrange db event))

  pub push_event_to_stack : String → String → Exec s.Db UndoError (Unit {0})
  push_event_to_stack stack event = modifies (s.rpush stack (s.texts.encode event))

  pub delete_event_if_empty : String → String → Exec s.Db UndoError (Unit {0})
  delete_event_if_empty stack event db =
      if s.llen db event == 0 then (ok tt, s.lrem stack (s.texts.encode event) db) else (ok tt, db)

  remove_found : String → String → String → Option UndoEntry → Exec s.Db UndoError UndoEntry
  remove_found file event obj_id none db = (err (no_obj_in_undo_event obj_id event file), db)
  remove_found file event obj_id (some entry) db =
      (ok entry, s.lrem event (s.entries.encode entry) db)

  pub pop_entry_from_event : String → String → String → Exec s.Db UndoError UndoEntry
  unfolding remove_found
  pop_entry_from_event file event obj_id = do
    entries ← get_event_entries event
    remove_found file event obj_id (find_entry obj_id entries)

  pub get_current_event_in_stack : String → String → String → Exec s.Db UndoError String
  get_current_event_in_stack file user stack = gets (λ db. elim (s.lindex_last db stack) [
    | none ↦ err (no_undo_event user file)
    | some value ↦ elim (s.texts.decode value) [ none ↦ err database_error | some event ↦ ok event ]
  ])

  pub update_event_in_stack :
      String → String → String → ℤ → String → UndoChangeType → Exec s.Db UndoError (Unit {0})
  update_event_in_stack file user stack offset obj_id change_type = do
    event ← get_current_event_in_stack file user stack
    add_entry_to_event event obj_id offset change_type

  pub move_entry_between_stacks :
      String
      → String
      → String
      → String
      → String
      → String
      → ℤ
      → UndoChangeType
      → Exec s.Db UndoError (Unit {0})
  move_entry_between_stacks file user from_stack to_stack from_event obj_id new_offset
        new_change_type =
      do
        pop_entry_from_event file from_event obj_id
        delete_event_if_empty from_stack from_event
        update_event_in_stack file user to_stack new_offset obj_id new_change_type

  pub update_undo_cache_inner : String → ℤ → ChangeMsg → Exec s.Db UndoError (Unit {0})
  update_undo_cache_inner file offset msg =
      let user = msg.user in
      let (obj_id, change_type) = entry_kind msg.change_type in
      elim msg.change_source [
        | none ↦ pure tt
        | some source ↦ elim source [
          | user_action ↦
              update_event_in_stack file user (undo_stack file user) offset obj_id change_type
          | undo event ↦
              move_entry_between_stacks file user (undo_stack file user) (redo_stack file user)
                event obj_id offset change_type
          | redo event ↦
              move_entry_between_stacks file user (redo_stack file user) (undo_stack file user)
                event obj_id offset change_type
        ]
      ]

  pub update_undo_cache : String → ℤ → Blob → Exec s.Db UndoError (Unit {0})
  update_undo_cache file offset msg_bytes = elim (s.changes.decode msg_bytes) [
    | none ↦ fail prost_decode_error
    | some msg ↦ update_undo_cache_inner file offset msg
  ]

  -- `event` is the new UUID.
  pub begin_event : String → String → Exec s.Db UndoError (Unit {0})
  begin_event event stack = push_event_to_stack stack event

  pub begin_undo_event : String → String → String → Exec s.Db UndoError (Unit {0})
  begin_undo_event event file user = begin_event event (undo_stack file user)

  pub begin_redo_event : String → String → String → Exec s.Db UndoError (Unit {0})
  begin_redo_event event file user = begin_event event (redo_stack file user)

  pub get_current_event_and_list :
      String → String → String → Exec s.Db UndoError (String × List UndoEntry)
  get_current_event_and_list file user stack = do
    event ← get_current_event_in_stack file user stack
    list ← get_event_entries event
    pure (event, list)

  pub undo_latest : String → String → String → Exec s.Db UndoError (String × List UndoEntry)
  undo_latest event file user = do
    results ← get_current_event_and_list file user (undo_stack file user)
    begin_redo_event event file user
    pure results

  pub redo_latest : String → String → String → Exec s.Db UndoError (String × List UndoEntry)
  redo_latest event file user = do
    results ← get_current_event_and_list file user (redo_stack file user)
    begin_undo_event event file user
    pure results
