-- ===== src/Undo/Spec.antt =====
-- What the undo cache keeps for one user of one file, with keys and codecs gone: two stacks of
-- event names, the last one on top, and the entries of every event.
use kafka_cad.Prelude.{
  String, ◌≡◌, Option, none, some, List, [], ◌∷◌, ◌++◌, get_last?, string_eq, ◌==◌, ==_refl,
  if◌then◌else◌,
}
use kafka_cad.Prelude.Result.{Result, ok, err}
use kafka_cad.State.{ChangeSource, user_action, undo, redo}
use kafka_cad.Redis.{remove_first}
use kafka_cad.Undo.{UndoError, no_undo_event, no_obj_in_undo_event, UndoEntry, find_entry}

pub record Model : Type 0 where
  pub undos : List String
  pub redos : List String
  pub events : String → List UndoEntry

abbrev pub put_at {ℓ} : {A : Type ℓ} → (String → A) → String → A → String → A
put_at f k v j = if k == j then v else f j

pub put_at_self {ℓ} : {A : Type ℓ} (f : String → A) (k : String) (v : A) → put_at f k v k ≡ v
put_at_self f k v = rw (==_refl k)

-- The event without the first entry of the object.
unfoldable pub drop_entry : String → List UndoEntry → List UndoEntry
drop_entry obj_id [] = []
drop_entry obj_id (entry ∷ entries) =
    if entry.obj_id == obj_id then entries else entry ∷ drop_entry obj_id entries

-- A stack from which an event goes once it is empty.
abbrev pub without_empty : List UndoEntry → String → List String → List String
without_empty [] event stack = remove_first event stack
without_empty (_ ∷ _) event stack = stack

-- Which of the two stacks.
pub data Side : Type 0 where
  undo_side redo_side : Side

abbrev pub stack_of : Side → Model → List String
stack_of undo_side m = m.undos
stack_of redo_side m = m.redos

abbrev pub with_stack : Side → List String → Model → Model
with_stack undo_side names m = record m { undos = names }
with_stack redo_side names m = record m { redos = names }

-- The parameters are the file and the user, for the errors.
module _ (file user : String) where
  unfoldable pub append_entry : Side → UndoEntry → Model → Result UndoError (Unit {0}) × Model
  append_entry side entry m = elim (get_last? (stack_of side m)) [
    | none ↦ (err (no_undo_event user file), m)
    | some event ↦
        (ok tt, record m { events = put_at m.events event (m.events event ++ entry ∷ []) })
  ]

  unfoldable pub take_out : Side → String → String → Model → Model
  take_out from event obj_id m =
      let rest = drop_entry obj_id (m.events event) in
      with_stack from (without_empty rest event (stack_of from m))
        (record m { events = put_at m.events event rest })

  unfoldable pub move_entry :
      Side → Side → String → UndoEntry → Model → Result UndoError (Unit {0}) × Model
  move_entry from to event entry m = elim (find_entry entry.obj_id (m.events event)) [
    | none ↦ (err (no_obj_in_undo_event entry.obj_id event file), m)
    | some _ ↦ append_entry to entry (take_out from event entry.obj_id m)
  ]

  -- What one change of the user does.
  unfoldable pub apply_change :
      Option ChangeSource → UndoEntry → Model → Result UndoError (Unit {0}) × Model
  apply_change none entry m = (ok tt, m)
  apply_change (some user_action) entry m = append_entry undo_side entry m
  apply_change (some (undo event)) entry m = move_entry undo_side redo_side event entry m
  apply_change (some (redo event)) entry m = move_entry redo_side undo_side event entry m

  -- What the user gets on asking to undo or to redo; the other side gets a new event.
  unfoldable pub begin_round :
      Side → Side → String → Model → Result UndoError (String × List UndoEntry) × Model
  begin_round from to fresh m = elim (get_last? (stack_of from m)) [
    | none ↦ (err (no_undo_event user file), m)
    | some event ↦ (ok (event, m.events event), with_stack to (stack_of to m ++ fresh ∷ []) m)
  ]
