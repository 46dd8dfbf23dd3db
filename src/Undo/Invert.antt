-- ===== src/Undo/Invert.antt =====
-- undo/src/invert.rs: the changes that take back an event.
pub mod Restores
pub mod Replay
use kafka_cad.Prelude.{String, Option, none, some, List, [], ◌∷◌, map}
use kafka_cad.Prelude.Int.{pred_i64}
use kafka_cad.Prelude.Result.{Result, ok, err}
use kafka_cad.State.{
  ChangeType, add, modify, delete, ChangeSource, ChangeMsg, OptionChangeMsg, ObjectAtOffset,
}
use kafka_cad.Objects.{GetObjectsInput}
use kafka_cad.Undo.{UndoChangeType, added, modified, deleted, not_set, UndoEntry}

-- The client of the object service, and its answer to get_objects.
abbrev pub ObjClient : Type 0 → Type 0
ObjClient Status = GetObjectsInput → Result Status (List OptionChangeMsg)

abbrev pub previous_of : UndoEntry → ObjectAtOffset
previous_of entry = record { offset = pred_i64 entry.offset; obj_id = entry.obj_id }

pub get_all_previous_objects :
    {Status : Type 0}
    → ObjClient Status
    → String
    → List UndoEntry
    → Result Status (List OptionChangeMsg)
get_all_previous_objects obj_client file entries =
    obj_client (record { file = file; obj_ids = map previous_of entries })

-- The match of the loop: the change pushed for one entry, if one is pushed.
pub inverse_type : String → UndoChangeType → Option ChangeMsg → Option ChangeType
inverse_type obj_id change_type none = some (delete (record { id = obj_id }))
inverse_type obj_id added (some prev_change) = some (delete (record { id = obj_id }))
inverse_type obj_id modified (some prev_change) = elim prev_change.change_type [
  | none ↦ none
  | some t ↦ elim t [
    | add prev_object ↦ some (modify prev_object)
    | modify prev_object ↦ some (modify prev_object)
    | delete _ ↦ none
  ]
]
inverse_type obj_id deleted (some prev_change) = elim prev_change.change_type [
  | none ↦ none
  | some t ↦ elim t [
    | add prev_object ↦ some (add prev_object)
    | modify prev_object ↦ some (add prev_object)
    | delete _ ↦ none
  ]
]
inverse_type obj_id not_set (some prev_change) = elim prev_change.change_type [
  | none ↦ none
  | some t ↦ elim t [
    | add prev_object ↦ some (add prev_object)
    | modify prev_object ↦ some (add prev_object)
    | delete _ ↦ none
  ]
]

abbrev pub push_inverse :
    String → ChangeSource → Option ChangeType → List ChangeMsg → List ChangeMsg
push_inverse user source none inverted = inverted
push_inverse user source (some t) inverted =
    record { user = user; change_type = some t; change_source = some source } ∷ inverted

pub invert_changes_inner :
    String → ChangeSource → List UndoEntry → List OptionChangeMsg → List ChangeMsg
invert_changes_inner user source [] previous = []
invert_changes_inner user source (current ∷ entries) [] = []
invert_changes_inner user source (current ∷ entries) (prev ∷ previous) =
    push_inverse user source (inverse_type current.obj_id current.change_type prev.change)
      (invert_changes_inner user source entries previous)

pub invert_changes :
    {Status : Type 0}
    → ObjClient Status
    → String
    → String
    → ChangeSource
    → List UndoEntry
    → Result Status (List ChangeMsg)
invert_changes obj_client file user source entries =
    elim (get_all_previous_objects obj_client file entries) [
      | err status ↦ err status
      | ok previous ↦ ok (invert_changes_inner user source entries previous)
    ]
