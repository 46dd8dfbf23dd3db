-- ===== src/Objects/History.antt =====
-- The object cache against the commit log: what get_object reads is what the log says.
use mathlib.Core.List.{append_assoc}
use native.Mathlib.Nat.{add-zero, zero-add, suc-add, add-suc}
use kafka_cad.Prelude.{
  ℕ, zero, suc, ◌+◌, String, ◌≡◌, refl, sym, ◌∙◌, ap, Bool, true, false, ◌&&◌, Option, none, some,
  List, [], ◌∷◌, ◌++◌, map, length, get_elem?, Eq, string_eq, ◌==◌, arith, if◌then◌else◌,
}
use kafka_cad.Prelude.Int.{ℤ, pos, leb_ℤ}
use kafka_cad.Prelude.Result.{Result, ok, err}
use kafka_cad.State.{ChangeType, ChangeSource, add, modify, delete, ChangeMsg, type_id}
use kafka_cad.Kafka.{cache_result-state, Message, Event, received, handle_message, handle_stream}
use kafka_cad.Objects.{
  ObjError, obj_not_found, bincode_error, Services, obj_cache, update_latest_obj_list,
  get_object_from, get_object, update_decoded, update_object_cache,
}
use kafka_cad.Objects.Keys.{
  IsPlainId, obj_cache-beq, file_offset-ne-obj_cache, latest_obj_list-ne-obj_cache,
}

-- A change of the commit log, at its offset in the topic.
pub record Commit : Type 0 where
  pub file : String
  pub offset : ℤ
  pub change : ChangeMsg

-- Whether a change is one of the object.
abbrev pub changes_object : String → ChangeMsg → Bool
changes_object id change = elim change.change_type [ none ↦ false | some t ↦ type_id t == id ]

abbrev pub is_version : String → String → Commit → Bool
is_version file id c = c.file == file && changes_object id c.change

-- The last change of the object in the log whose offset is at most `offset`.
abbrev pub latest : ℤ → String → String → List Commit → Option ChangeMsg
latest offset file id [] = none
latest offset file id (c ∷ log) = elim (latest offset file id log) [
  | some change ↦ some change
  | none ↦ if is_version file id c && leb_ℤ c.offset offset then some c.change else none
]

-- The objects of the log have plain ids.
abbrev pub IsPlainLog : List Commit → Type 0
IsPlainLog [] = Unit {0}
IsPlainLog (c ∷ log) =
    ((t : ChangeType) → c.change.change_type ≡ some t → IsPlainId (type_id t)) × IsPlainLog log

module _ {Blob : Type 0} ⦃e : Eq Blob⦄ (s : Services Blob) where
  abbrev pub message_of : Commit → Message Blob
  message_of c = record {
    partition = pos 0;
    offset = c.offset;
    payload = some (s.changes.encode c.change);
    key = some (s.texts.encode c.file);
  }

  abbrev pub deliver : Commit → Event Blob
  deliver c = received (message_of c)

  -- The service at work: the consumer loop over the events of the topic.
  abbrev pub consume : List Commit → s.Db → s.Db
  consume log db = handle_stream s.texts (update_object_cache s) (map deliver log) db

  abbrev entry_of : Commit → Blob
  entry_of c = s.entries.encode (record { offset = c.offset; object = s.changes.encode c.change })

  abbrev pub step : Commit → s.Db → s.Db
  step c db = (update_decoded s c.file c.offset (s.changes.encode c.change) c.change db).1

  pub handle_message-step :
      (c : Commit) (db : s.Db)
      → (handle_message s.texts (update_object_cache s) (message_of c) db).1 ≡ step c db
  unfolding handle_message update_object_cache
  handle_message-step c db =
      rw
        (
          s.texts.decode-encode c.file,
          s.changes.decode-encode c.change,
          handle_message,
          update_object_cache,
        )
        (cache_result-state _)

  lrange-listing :
      (f g id user : String) (t : Option ChangeType) (source : Option ChangeSource) (db : s.Db)
      → IsPlainId id
      → s.lrange
          (update_latest_obj_list s f
            (record { user = user; change_type = t; change_source = source })
            db).1
          (obj_cache g id)
        ≡ s.lrange db (obj_cache g id)
  unfolding update_latest_obj_list
  lrange-listing f g id user none source db k = refl
  lrange-listing f g id user (some (modify o)) source db k = refl
  lrange-listing f g id user (some (add o)) source db k =
      s.lrange-sadd db _ _ _ (latest_obj_list-ne-obj_cache g f id k)
  lrange-listing f g id user (some (delete m)) source db k =
      s.lrange-srem db _ _ _ (latest_obj_list-ne-obj_cache g f id k)

  lrange-step :
      (f g id user : String) (offset : ℤ) (input : Blob) (t : Option ChangeType)
      (source : Option ChangeSource) (db : s.Db)
      → ((u : ChangeType) → t ≡ some u → IsPlainId (type_id u))
      → IsPlainId id
      → s.lrange
          (update_decoded s f offset input
            (record { user = user; change_type = t; change_source = source })
            db).1
          (obj_cache g id)
        ≡ (if f == g
              && changes_object id (record { user = user; change_type = t; change_source = source })
            then s.entries.encode (record { offset = offset; object = input })
              ∷ s.lrange db (obj_cache g id)
            else s.lrange db (obj_cache g id))
  unfolding update_decoded
  lrange-step f g id user offset input none source db h k = ground arith
  lrange-step f g id user offset input (some t) source db h k =
      lrange-listing f g id user (some t) source _ k
      ∙ s.lrange-put _ _ _ _ (file_offset-ne-obj_cache g f id k)
      ∙ s.lrange-lpush db _ _ _
      ∙ rw (obj_cache-beq f g (type_id t) id (h t refl).no_colon k.no_colon)

  lrange-update :
      (c : Commit) (file id : String) (db : s.Db)
      → ((t : ChangeType) → c.change.change_type ≡ some t → IsPlainId (type_id t))
      → IsPlainId id
      → s.lrange (step c db) (obj_cache file id) ≡ (
          if is_version file id c
          then entry_of c ∷ s.lrange db (obj_cache file id)
          else s.lrange db (obj_cache file id))
  lrange-update c file id db h k =
      lrange-step c.file file id _ c.offset _ c.change.change_type _ db h k

  -- The entries of an object's list after a log, the newest first.
  versions : String → String → List Commit → List Blob
  versions file id [] = []
  versions file id (c ∷ log) =
      versions file id log ++ (if is_version file id c then entry_of c ∷ [] else [])

  lrange-consume :
      (log : List Commit) (file id : String) (db : s.Db)
      → IsPlainLog log
      → IsPlainId id
      → s.lrange (consume log db) (obj_cache file id)
        ≡ versions file id log ++ s.lrange db (obj_cache file id)
  unfolding handle_stream versions
  lrange-consume [] file id db h k = refl
  lrange-consume (c ∷ log) file id db (h, hs) k = rw (handle_message-step c db) (
      lrange-consume log file id (step c db) hs k
      ∙ rw (lrange-update c file id db h k) (push (is_version file id c)))
    where
      push :
          (b : Bool)
          → versions file id log
              ++ (if b
                  then entry_of c ∷ s.lrange db (obj_cache file id)
                  else s.lrange db (obj_cache file id))
            ≡ (versions file id log ++ (if b then entry_of c ∷ [] else []))
              ++ s.lrange db (obj_cache file id)
      push true = sym (append_assoc (versions file id log) _ _)
      push false = sym (append_assoc (versions file id log) _ _)

  -- The loop of get_object on the list itself.
  scan : ℤ → String → List Blob → Result ObjError Blob
  scan offset key [] = err (obj_not_found key)
  scan offset key (b ∷ bs) = elim (s.entries.decode b) [
    | none ↦ err bincode_error
    | some entry ↦
        let rest = scan offset key bs in if leb_ℤ entry.offset offset then ok entry.object else rest
  ]

  get_object_from-scan :
      (bs : List Blob) (i : ℕ) (offset : ℤ) (cache key : String) (db : s.Db)
      → ((j : ℕ) → s.lindex db cache (i + j) ≡ get_elem? bs j)
      → get_object_from s (length bs) i offset cache key db ≡ scan offset key bs
  unfolding get_object_from scan
  get_object_from-scan [] i offset cache key db h = refl
  get_object_from-scan (b ∷ bs) i offset cache key db h =
      let here = ap (s.lindex db cache) (sym (add-zero i)) ∙ h 0 in
      let there = λ (j : ℕ). ap (s.lindex db cache) (suc-add i j ∙ sym (add-suc i j)) ∙ h (suc j) in
      ground (arith, here, get_object_from-scan bs (suc i) offset cache key db there)

  get_object-scan :
      (file : String) (offset : ℤ) (key : String) (db : s.Db)
      → get_object s file offset key db ≡ scan offset key (s.lrange db (obj_cache file key))
  unfolding get_object scan
  get_object-scan file offset key db =
      let cache = obj_cache file key in
      rw (s.llen_lem db cache, get_object)
        (go (s.lrange db cache)
          (λ j. s.lindex_lem db cache (0 + j) ∙ ap (get_elem? (s.lrange db cache)) (zero-add j)))
    where
      go :
          (bs : List Blob)
          → ((j : ℕ) → s.lindex db (obj_cache file key) (0 + j) ≡ get_elem? bs j)
          → (elim (length bs) [
            | zero ↦ err (obj_not_found key)
            | suc left ↦ get_object_from s (suc left) 0 offset (obj_cache file key) key db
          ])
            ≡ scan offset key bs
      go [] h = refl
      go (b ∷ bs) h = get_object_from-scan (b ∷ bs) 0 offset (obj_cache file key) key db h

  -- What the reader gets for a version that was found, or not.
  abbrev pub found : String → Option ChangeMsg → Result ObjError Blob
  found id none = err (obj_not_found id)
  found id (some change) = ok (s.changes.encode change)

  scan-versions :
      (log : List Commit) (offset : ℤ) (file id : String) (bs : List Blob)
      → scan offset id (versions file id log ++ bs) ≡ (elim (latest offset file id log) [
        | some change ↦ ok (s.changes.encode change)
        | none ↦ scan offset id bs
      ])
  unfolding scan versions
  scan-versions [] offset file id bs = refl
  scan-versions (c ∷ log) offset file id bs =
      ap (scan offset id) (append_assoc (versions file id log) _ bs)
      ∙ scan-versions log offset file id _
      ∙ ground (
        arith,
        s.entries.decode-encode (record { offset = c.offset; object = s.changes.encode c.change }),
      )

  -- After the service has consumed a log of plain ids, from a database with no versions of the
  -- object, get_object at an offset returns the bytes of the last commit of that object whose
  -- offset is at most the one asked for, and ObjNotFound where the log has none.
  pub get_object-consume :
      (log : List Commit) (offset : ℤ) (file id : String) (db : s.Db)
      → IsPlainLog log
      → IsPlainId id
      → s.lrange db (obj_cache file id) ≡ []
      → get_object s file offset id (consume log db) ≡ found id (latest offset file id log)
  unfolding scan
  get_object-consume log offset file id db h k empty =
      get_object-scan file offset id (consume log db)
      ∙ ap (scan offset id) (lrange-consume log file id db h k)
      ∙ ap (λ bs. scan offset id (versions file id log ++ bs)) empty
      ∙ scan-versions log offset file id []
      ∙ ground arith
