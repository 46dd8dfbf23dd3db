-- ===== src/Examples/Restores.antt =====
-- The theorems on taking back an event, at a wall that was moved and deleted in it.
use kafka_cad.Prelude.{String, ◌≡◌, refl, none, List, [], ◌∷◌}
use kafka_cad.Prelude.Int.{pos}
use kafka_cad.Prelude.Result.{ok}
use kafka_cad.State.{undo, ChangeMsg}
use kafka_cad.Objects.{get_objects}
use kafka_cad.Objects.History.{consume}
use kafka_cad.Undo.{UndoEntry, modified, deleted}
use kafka_cad.Undo.Invert.{invert_changes}
use kafka_cad.Undo.Invert.Restores
use kafka_cad.Undo.Invert.Restores.{AreRestored}
use kafka_cad.Undo.Invert.Replay
use kafka_cad.Undo.Invert.Replay.{replay, outcome, last_entry}
use kafka_cad.Examples.Server.{empty}
use kafka_cad.Examples.Blobs.{blob_eq}
use kafka_cad.Examples.Objects.{services, log, log-IsPlainLog, wall-IsPlainId, wall}

abbrev event : List UndoEntry
event =
    record { offset = pos 5; obj_id = "wall"; change_type = modified }
    ∷ record { offset = pos 6; obj_id = "wall"; change_type = deleted }
    ∷ []

invert_changes-AreRestored_example :
    (changes : List ChangeMsg) × (invert_changes
        (λ input. get_objects services input (consume services log empty))
        "house"
        "ann"
        (undo "first")
        event
      ≡ ok changes)
    × AreRestored "house" log "ann" (undo "first") event changes
invert_changes-AreRestored_example =
    Restores.invert_changes-AreRestored services "house" "ann" (undo "first") event log empty
      log-IsPlainLog (wall-IsPlainId, (wall-IsPlainId, tt)) (λ _. refl)
      ((5, refl), (wall, refl), ((6, refl), (record wall { obj_data = 7 ∷ [] }, refl), tt))

invert_changes-replay_example :
    (changes : List ChangeMsg) × (invert_changes
        (λ input. get_objects services input (consume services log empty))
        "house"
        "ann"
        (undo "first")
        event
      ≡ ok changes)
    × ((id : String)
        → replay changes (λ _. none) id
          ≡ outcome "house" log (λ _. none) id (last_entry id event none))
invert_changes-replay_example =
    Replay.invert_changes-replay services "house" "ann" (undo "first") event log empty (λ _. none)
      log-IsPlainLog (wall-IsPlainId, (wall-IsPlainId, tt)) (λ _. refl)
      ((5, refl), (wall, refl), ((6, refl), (record wall { obj_data = 7 ∷ [] }, refl), tt))
