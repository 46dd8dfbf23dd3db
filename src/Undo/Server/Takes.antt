-- ===== src/Undo/Server/Takes.antt =====
-- The answers of the undo service, with the object service at work beside it.
use kafka_cad.Prelude.{String, ◌≡◌, subst, some, List, [], ◌∷◌, ◌++◌, map, get_last?, Eq}
use kafka_cad.Prelude.Text.{NoColon}
use kafka_cad.Prelude.Result.{Result, ok}
use kafka_cad.State.{ChangeSource, undo, redo, ChangeMsg}
use kafka_cad.Objects
use kafka_cad.Objects.{obj_cache, get_objects}
use kafka_cad.Objects.History.{Commit, IsPlainLog, consume}
use kafka_cad.Objects.Requests.{ArePlain}
use kafka_cad.Undo.{UndoError, UndoEntry, Services}
use kafka_cad.Undo.Spec.{Model, Side, undo_side, redo_side, stack_of, with_stack, begin_round}
use kafka_cad.Undo.View.{Represents}
use kafka_cad.Undo.Refines.{Implements}
use kafka_cad.Undo.Requests.{undo_latest-Implements, redo_latest-Implements}
use kafka_cad.Undo.Invert.{ObjClient, previous_of}
use kafka_cad.Undo.Invert.Restores.{Fits, AreRestored, invert_changes-AreRestored}
use kafka_cad.Undo.Server.{inverted, undo_latest, redo_latest}

module _ {Blob : Type 0} ⦃e : Eq Blob⦄ (s : Services Blob) (os : Objects.Services Blob)
    (file user : String) (log : List Commit) (kept : os.Db) where
  -- The object service after the log.
  abbrev pub obj_client : ObjClient Objects.ObjError
  obj_client input = get_objects os input (consume os log kept)

  -- The answer gives back what each entry of the event changed, and the new event is on the other
  -- stack.
  pub record TakesBack (from to : Side) (source : ChangeSource) (fresh event : String) (m : Model)
      (run : Result Objects.ObjError (List ChangeMsg) × s.Db) : Type 0 where
    pub changes : List ChangeMsg
    pub answers : run.0 ≡ ok changes
    pub restored : AreRestored file log user source (m.events event) changes
    pub stacks : Represents s file user run.1 (with_stack to (stack_of to m ++ fresh ∷ []) m)

  round_answer :
      (from to : Side) (fresh event : String) (m : Model)
      → get_last? (stack_of from m) ≡ some event
      → begin_round file user from to fresh m
        ≡ (ok (event, m.events event), with_stack to (stack_of to m ++ fresh ∷ []) m)
  unfolding begin_round
  round_answer from to fresh event m top = rw (top, begin_round)

  inverted-TakesBack :
      (to_status : UndoError → Objects.ObjError) (from to : Side) (source : String → ChangeSource)
      (fresh event : String) (m : Model) (run : Result UndoError (String × List UndoEntry) × s.Db)
      → IsPlainLog log
      → ArePlain (map previous_of (m.events event))
      → ((id : String) → os.lrange kept (obj_cache file id) ≡ [])
      → Fits file log (m.events event)
      → Implements s file user run
          (ok (event, m.events event), with_stack to (stack_of to m ++ fresh ∷ []) m)
      → TakesBack from to
          (source event)
          fresh
          event
          m
          (inverted s to_status obj_client file user source run)
  unfolding inverted
  inverted-TakesBack to_status from to source fresh event m (r, db) h k empty fits done =
      let (changes, runs, good) =
        invert_changes-AreRestored os file user (source event) (m.events event) log kept h k empty
          fits in
      let p : r ≡ ok (event, m.events event) = done.answer in
      rw p (record { changes = changes; answers = runs; restored = good; stacks = done.kept })

  -- Where the database represents a user's stacks and events, `event` is on top of the undo stack,
  -- its entries have plain ids and fit the log, and the object service has consumed the log of
  -- plain ids into an empty cache of the file: undo_latest succeeds with one change for each entry
  -- of the event, in their order, that brings the entry's object back to what it was before the
  -- entry, and leaves a database that represents the stacks with the new event, whose name holds no
  -- colon, on top of the redo stack.
  pub undo_latest-TakesBack :
      (to_status : UndoError → Objects.ObjError) (fresh event : String) (db : s.Db) (m : Model)
      → NoColon fresh
      → Represents s file user db m
      → get_last? m.undos ≡ some event
      → IsPlainLog log
      → ArePlain (map previous_of (m.events event))
      → ((id : String) → os.lrange kept (obj_cache file id) ≡ [])
      → Fits file log (m.events event)
      → TakesBack undo_side redo_side
          (undo event)
          fresh
          event
          m
          (undo_latest s to_status obj_client fresh file user db)
  unfolding undo_latest
  undo_latest-TakesBack to_status fresh event db m n r top h k empty fits =
      inverted-TakesBack to_status undo_side redo_side undo fresh event m _ h k empty fits (
        subst (Implements s file user _) (round_answer undo_side redo_side fresh event m top)
          (undo_latest-Implements s file user fresh db m n r))

  -- The same of redo_latest, with the stacks exchanged.
  pub redo_latest-TakesBack :
      (to_status : UndoError → Objects.ObjError) (fresh event : String) (db : s.Db) (m : Model)
      → NoColon fresh
      → Represents s file user db m
      → get_last? m.redos ≡ some event
      → IsPlainLog log
      → ArePlain (map previous_of (m.events event))
      → ((id : String) → os.lrange kept (obj_cache file id) ≡ [])
      → Fits file log (m.events event)
      → TakesBack redo_side undo_side
          (redo event)
          fresh
          event
          m
          (redo_latest s to_status obj_client fresh file user db)
  unfolding redo_latest
  redo_latest-TakesBack to_status fresh event db m n r top h k empty fits =
      inverted-TakesBack to_status redo_side undo_side redo fresh event m _ h k empty fits (
        subst (Implements s file user _) (round_answer redo_side undo_side fresh event m top)
          (redo_latest-Implements s file user fresh db m n r))
