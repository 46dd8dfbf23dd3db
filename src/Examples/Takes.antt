-- ===== src/Examples/Takes.antt =====
-- The theorems on the answers of the undo service, at a wall that was moved in the latest event.
use kafka_cad.Prelude.{refl, some, [], ◌∷◌, ◌++◌, string_eq, ne_of_beq, arith}
use kafka_cad.Prelude.Int.{pos}
use kafka_cad.State.{user_action, undo, redo, ChangeMsg}
use kafka_cad.Objects.{database_error}
use kafka_cad.Undo.{modified, entry_kind, find_entry, update_undo_cache_inner}
use kafka_cad.Undo.Spec.{
  move_entry, take_out, drop_entry, Model, undo_side, redo_side, append_entry, apply_change,
}
use kafka_cad.Undo.View.{Represents}
use kafka_cad.Undo.Refines.{entry_of, update_undo_cache_inner-Implements}
use kafka_cad.Undo.Requests.{push_Represents}
use kafka_cad.Undo.Names.{stack_key}
use kafka_cad.Undo.Server.{undo_latest, redo_latest}
use kafka_cad.Undo.Server.Takes
use kafka_cad.Undo.Server.Takes.{TakesBack, obj_client}
use kafka_cad.Undo.Rounds.{handle_all}
use kafka_cad.Undo.Rounds.Moves
use kafka_cad.Undo.Rounds.Moves.{IsRound, new_entries}
use kafka_cad.Examples.Server.{Memory, empty}
use kafka_cad.Examples.Blobs.{Blob, texts, blob_eq}
use kafka_cad.Examples.Objects
use kafka_cad.Examples.Objects.{log, log-IsPlainLog, wall-IsPlainId, wall, moved}
use kafka_cad.Examples.Undo.{services, begun, one_event, begun-Represents}

abbrev used : Memory Blob
used = (update_undo_cache_inner services "house" (pos 5) moved begun).1

abbrev filled : Model
filled = (apply_change "house" "ann" (some user_action) (entry_of (pos 5) moved) one_event).1

used-Represents : Represents services "house" "ann" used filled
used-Represents =
    (update_undo_cache_inner-Implements services "house" (pos 5) moved begun one_event tt
      begun-Represents).kept

undo_latest-TakesBack_example :
    TakesBack services Objects.services "house" "ann" log empty undo_side redo_side
      (undo "first")
      "second"
      "first"
      filled
      (undo_latest services
        (λ _. database_error)
        (obj_client services Objects.services "house" "ann" log empty)
        "second"
        "house"
        "ann"
        used)
unfolding apply_change append_entry entry_kind
undo_latest-TakesBack_example =
    Takes.undo_latest-TakesBack services Objects.services "house" "ann" log empty
      (λ _. database_error) "second" "first" used filled (omega arith) used-Represents refl
      log-IsPlainLog (wall-IsPlainId, tt) (λ _. refl) ((5, refl), (wall, refl), tt)

-- The move is taken back: its entry goes to the new redo event.
abbrev taken : ChangeMsg
taken = record moved { change_source = some (undo "first") }

abbrev pushed : Memory Blob
pushed = services.redis.rpush (stack_key "house" "ann" redo_side) (texts.encode "second") used

abbrev both : Model
both = record filled { redos = filled.redos ++ "second" ∷ [] }

abbrev undone : Memory Blob
undone = (update_undo_cache_inner services "house" (pos 6) taken pushed).1

abbrev moved_over : Model
moved_over = (apply_change "house" "ann" (some (undo "first")) (entry_of (pos 6) taken) both).1

undone-Represents : Represents services "house" "ann" undone moved_over
undone-Represents =
    (update_undo_cache_inner-Implements services "house" (pos 6) taken pushed both (omega arith) (
      push_Represents services "house" "ann" redo_side "second" used filled (omega arith)
        used-Represents)).kept

redo_latest-TakesBack_example :
    TakesBack services Objects.services "house" "ann" log empty redo_side undo_side
      (redo "second")
      "third"
      "second"
      moved_over
      (redo_latest services
        (λ _. database_error)
        (obj_client services Objects.services "house" "ann" log empty)
        "third"
        "house"
        "ann"
        undone)
unfolding apply_change append_entry move_entry take_out drop_entry find_entry entry_kind
redo_latest-TakesBack_example =
    Takes.redo_latest-TakesBack services Objects.services "house" "ann" log empty
      (λ _. database_error) "third" "second" undone moved_over (omega arith) undone-Represents refl
      log-IsPlainLog (wall-IsPlainId, tt) (λ _. refl)
      ((6, refl), (record wall { obj_data = 7 ∷ [] }, refl), tt)

handle_all-IsRound_example :
    IsRound services "house" "ann" undo_side "first" "second" [] both
      (handle_all services "house" ((pos 6, taken) ∷ []) pushed)
      (new_entries ((pos 6, taken) ∷ []))
unfolding apply_change append_entry entry_kind
handle_all-IsRound_example =
    Moves.handle_all-IsRound services "house" "ann" undo_side "first" "second" [] both
      ((pos 6, taken) ∷ []) pushed
      (record { offset = pos 5; obj_id = "wall"; change_type = modified }) [] (omega arith) tt
      (ne_of_beq "first" "second" refl)
      (push_Represents services "house" "ann" redo_side "second" used filled (omega arith)
        used-Represents)
      refl refl refl (refl, refl, refl, tt)
