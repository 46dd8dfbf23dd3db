-- ===== src/Undo/Server.antt =====
-- undo/src/main.rs and undo/src/kafka.rs: the requests of the undo service, and its consumer.
pub mod Takes
use kafka_cad.Prelude.{String, List, Eq}
use kafka_cad.Prelude.Result.{Result, ok, err}
use kafka_cad.Prelude.Exec.{Exec}
use kafka_cad.State.{ChangeSource, undo, redo, ChangeMsg}
use kafka_cad.Kafka
use kafka_cad.Kafka.{Message, UpdateError, Event}
use kafka_cad.Undo
use kafka_cad.Undo.{UndoError, UndoEntry, Services, update_undo_cache}
use kafka_cad.Undo.Invert.{ObjClient, invert_changes}

module _ {Blob : Type 0} ⦃e : Eq Blob⦄ (s : Services Blob) where
  pub handle_message : Message Blob → Exec s.Db (UpdateError UndoError) (Unit {0})
  handle_message = Kafka.handle_message s.texts (update_undo_cache s)

  pub handle_stream : List (Event Blob) → s.Db → s.Db
  handle_stream = Kafka.handle_stream s.texts (update_undo_cache s)

  -- `to_status` makes the gRPC error of an error of the cache.
  module _ {Status : Type 0} (to_status : UndoError → Status) where
    -- The end of undo_latest and redo_latest.
    pub inverted :
        ObjClient Status
        → String
        → String
        → (String → ChangeSource)
        → Result UndoError (String × List UndoEntry) × s.Db
        → Result Status (List ChangeMsg) × s.Db
    inverted obj_client file user source (err error, db) = (err (to_status error), db)
    inverted obj_client file user source (ok (event, latest), db) =
        (invert_changes obj_client file user (source event) latest, db)

    pub begin_undo_event : String → String → String → Exec s.Db UndoError (Unit {0})
    begin_undo_event event file user = Undo.begin_undo_event s event file user

    pub undo_latest :
        ObjClient Status → String → String → String → Exec s.Db Status (List ChangeMsg)
    undo_latest obj_client fresh file user db =
        inverted obj_client file user undo (Undo.undo_latest s fresh file user db)

    pub redo_latest :
        ObjClient Status → String → String → String → Exec s.Db Status (List ChangeMsg)
    redo_latest obj_client fresh file user db =
        inverted obj_client file user redo (Undo.redo_latest s fresh file user db)
