-- ===== src/Undo/Rounds.antt =====
-- A whole round of undo/src/cache.rs: the changes that take an event back, handled one after
-- another.
pub mod Moves
use kafka_cad.Prelude.{String, ◌≡◌, Option, some, List, [], ◌∷◌, Eq}
use kafka_cad.Prelude.Int.{ℤ}
use kafka_cad.Prelude.Exec.{Exec, ◌>>◌, pure}
use kafka_cad.State.{ChangeSource, undo, redo, ChangeMsg}
use kafka_cad.Undo.{UndoError, UndoEntry, Services, entry_kind, update_undo_cache_inner}
use kafka_cad.Undo.Spec.{Side, undo_side, redo_side}

abbrev pub flip : Side → Side
flip undo_side = redo_side
flip redo_side = undo_side

-- What names the event in the changes that take it off this side.
abbrev pub source_of : Side → String → ChangeSource
source_of undo_side event = undo event
source_of redo_side event = redo event

-- The changes, with their offsets, are by the user, take back the event, and are about the objects
-- of the entries, one for one.
abbrev pub TakeBack : Side → String → String → List UndoEntry → List (ℤ × ChangeMsg) → Type 0
TakeBack from user event [] [] = Unit {0}
TakeBack from user event (entry ∷ entries) ((offset, msg) ∷ commits) =
    (msg.user ≡ user)
    × (msg.change_source ≡ some (source_of from event))
    × ((entry_kind msg.change_type).0 ≡ entry.obj_id)
    × TakeBack from user event entries commits
TakeBack from user event _ _ = ⊥

-- The consumer on the changes.
abbrev pub handle_all :
    {Blob : Type 0} ⦃e : Eq Blob⦄ (s : Services Blob)
    → String
    → List (ℤ × ChangeMsg)
    → Exec s.Db UndoError (Unit {0})
handle_all s file [] = pure tt
handle_all s file ((offset, msg) ∷ commits) =
    update_undo_cache_inner s file offset msg >> handle_all s file commits
