-- ===== src/Undo/Invert/Replay.antt =====
-- What the changes of undo/src/invert.rs make of a whole file, handled in their order.
use kafka_cad.Prelude.{
  String, ◌≡◌, refl, ◌∙◌, Option, none, some, List, [], ◌∷◌, map, Eq, string_eq, ◌==◌, Eq-cases,
  inl, inr, if◌then◌else◌,
}
use kafka_cad.State.{ChangeSource, ChangeMsg, ObjectMsg, type_id}
use kafka_cad.Prelude.Result.{ok}
use kafka_cad.Objects.{Services, obj_cache, get_objects}
use kafka_cad.Objects.History.{Commit, IsPlainLog, consume}
use kafka_cad.Objects.Requests.{ArePlain}
use kafka_cad.Undo.{UndoEntry}
use kafka_cad.Undo.Invert.{previous_of, invert_changes}
use kafka_cad.Undo.Invert.Restores.{
  Fits, invert_changes-AreRestored, type_state, before, Restores, AreRestored,
}

-- The objects of a file, changed by one change after another.
abbrev pub replay : List ChangeMsg → (String → Option ObjectMsg) → String → Option ObjectMsg
replay [] world id = world id
replay (change ∷ changes) world id =
    replay changes
      (λ j. elim change.change_type [
        | none ↦ world j
        | some t ↦ if type_id t == j then type_state t else world j
      ])
      id

-- The last entry of the object in an event, or the one given.
abbrev pub last_entry : String → List UndoEntry → Option UndoEntry → Option UndoEntry
last_entry id [] given = given
last_entry id (entry ∷ entries) given =
    last_entry id entries (if entry.obj_id == id then some entry else given)

-- What an object is to be: what it was before the entry, or what it is in the file.
abbrev pub outcome :
    String
    → List Commit
    → (String → Option ObjectMsg)
    → String
    → Option UndoEntry
    → Option ObjectMsg
outcome file log world id none = world id
outcome file log world id (some entry) = before file log entry

replay-step :
    (file : String) (log : List Commit) (user id : String) (source : ChangeSource)
    (entry : UndoEntry) (change : ChangeMsg) (old : Option ObjectMsg)
    → Restores file log user source entry change
    → (elim change.change_type [
      | none ↦ old
      | some t ↦ if type_id t == id then type_state t else old
    ])
      ≡ (if entry.obj_id == id then before file log entry else old)
replay-step file log user id source entry change old r =
    rw (r.has_kind, r.same_object)
      (elim (Eq-cases entry.obj_id id) [ inl (t, _) ↦ rw t r.restored | inr (t, _) ↦ rw t ])

replay-given :
    (file : String) (log : List Commit) (user id : String) (source : ChangeSource)
    (entries : List UndoEntry) (changes : List ChangeMsg) (start world : String → Option ObjectMsg)
    (given : Option UndoEntry)
    → AreRestored file log user source entries changes
    → world id ≡ outcome file log start id given
    → replay changes world id ≡ outcome file log start id (last_entry id entries given)
replay-given file log user id source [] [] start world given h p = p
replay-given file log user id source [] (_ ∷ _) start world given h p = absurd h
replay-given file log user id source (_ ∷ _) [] start world given h p = absurd h
replay-given file log user id source (entry ∷ entries) (change ∷ changes) start world given (r, rs)
      p =
    replay-given file log user id source entries changes start _ _ rs
      (replay-step file log user id source entry change (world id) r ∙ chosen)
  where
    chosen :
        (if entry.obj_id == id then before file log entry else world id)
        ≡ outcome file log start id (if entry.obj_id == id then some entry else given)
    chosen = elim (Eq-cases entry.obj_id id) [ inl (t, _) ↦ rw t | inr (t, _) ↦ rw t p ]

replay-last_entry :
    (file : String) (log : List Commit) (user id : String) (source : ChangeSource)
    (entries : List UndoEntry) (changes : List ChangeMsg) (world : String → Option ObjectMsg)
    → AreRestored file log user source entries changes
    → replay changes world id ≡ outcome file log world id (last_entry id entries none)
replay-last_entry file log user id source entries changes world h =
    replay-given file log user id source entries changes world world none h refl

-- After the object service has consumed a log of plain ids into an empty cache of the file, for an
-- event whose entries fit the log: invert_changes succeeds, and its changes, made one after another
-- in any state of the file, leave every object of the event as it was before the last entry of that
-- object in the event, and every other object as it was.
pub invert_changes-replay :
    {Blob : Type 0} ⦃e : Eq Blob⦄ (s : Services Blob) (file user : String) (source : ChangeSource)
    (entries : List UndoEntry) (log : List Commit) (db : s.Db) (world : String → Option ObjectMsg)
    → IsPlainLog log
    → ArePlain (map previous_of entries)
    → ((id : String) → s.lrange db (obj_cache file id) ≡ [])
    → Fits file log entries
    → (changes : List ChangeMsg) × (invert_changes
          (λ input. get_objects s input (consume s log db))
          file
          user
          source
          entries
        ≡ ok changes)
      × ((id : String)
          → replay changes world id ≡ outcome file log world id (last_entry id entries none))
invert_changes-replay s file user source entries log db world h k empty fits =
    let (changes, runs, good) =
      invert_changes-AreRestored s file user source entries log db h k empty fits in
    (changes, runs, λ id. replay-last_entry file log user id source entries changes world good)
