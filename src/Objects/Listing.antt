-- ===== src/Objects/Listing.antt =====
-- The list of live objects and the file's offset, after a log.
use kafka_cad.Prelude.{
  String, ◌≡◌, ◌≢◌, refl, sym, ap, ◌∙◌, Bool, true, false, Option, none, some, List, [], ◌∷◌, Eq,
  string_eq, ◌==◌, ==_refl, Eq-cases, inl, inr, arith, if◌then◌else◌,
}
use kafka_cad.Prelude.Int.{ℤ}
use kafka_cad.Prelude.Text.{colon_injective}
use kafka_cad.Prelude.Result.{Result, ok, err}
use kafka_cad.State.{ChangeType, ChangeSource, add, modify, delete, type_id}
use kafka_cad.Redis.{contains, encode-beq}
use kafka_cad.Kafka.{handle_stream}
use kafka_cad.Objects.{
  ObjError, Services, database_error, obj_cache, file_offset, latest_obj_list, store_object_change,
  store_file_offset, update_latest_obj_list, update_decoded, get_latest_offset,
}
use kafka_cad.Objects.Keys.{
  IsPlainId, latest_obj_list-ne-obj_cache, file_offset-ne-obj_cache, file_offset-ne-latest_obj_list,
}
use kafka_cad.Objects.History.{Commit, IsPlainLog, consume, step, handle_message-step}

-- What one change says of whether the object is in the model, where `before` is what held before.
abbrev pub listed_after : String → Option ChangeType → Bool → Bool
listed_after id (some (add object)) before = if object.id == id then true else before
listed_after id (some (delete msg)) before = if msg.id == id then false else before
listed_after id (some (modify _)) before = before
listed_after id none before = before

-- Whether the last Add or Delete of the object in the log is an Add.
pub is_listed : String → String → List Commit → Bool → Bool
is_listed file id [] before = before
is_listed file id (c ∷ log) before =
    is_listed file id log
      (if c.file == file then listed_after id c.change.change_type before else before)

-- The offset of the last change of the file that has a type.
pub last_offset : String → List Commit → Option ℤ → Option ℤ
last_offset file [] before = before
last_offset file (c ∷ log) before = last_offset file log (elim c.change.change_type [
  | none ↦ before
  | some _ ↦ if c.file == file then some c.offset else before
])

module _ {Blob : Type 0} ⦃e : Eq Blob⦄ (s : Services Blob) where
  abbrev pub is_member : s.Db → String → String → Bool
  is_member db file id = contains (s.smembers db (latest_obj_list file)) (s.texts.encode id)

  latest_obj_list-beq : (f g : String) → (latest_obj_list f == latest_obj_list g) ≡ (f == g)
  unfolding latest_obj_list
  latest_obj_list-beq f g = elim (Eq-cases f g) [
    | inl (t, p) ↦ rw (t, p) (==_refl (latest_obj_list g))
    | inr (t, n) ↦ elim (Eq-cases (latest_obj_list f) (latest_obj_list g)) [
      | inl (_, q) ↦
          absurd (n (colon_injective f g "obj_list" "obj_list" (omega arith) (omega arith) q).0)
      | inr (t', _) ↦ rw t t'
    ]
  ]

  is_member-listing :
      (f g id user : String) (t : Option ChangeType) (source : Option ChangeSource) (db : s.Db)
      → is_member
          (update_latest_obj_list s f
            (record { user = user; change_type = t; change_source = source })
            db).1
          g
          id
        ≡ (if f == g then listed_after id t (is_member db g id) else is_member db g id)
  unfolding update_latest_obj_list
  is_member-listing f g id user none source db = ground arith
  is_member-listing f g id user (some (modify o)) source db = ground arith
  is_member-listing f g id user (some (add o)) source db =
      s.smembers-sadd db _ _ _ _
      ∙ rw (latest_obj_list-beq f g, encode-beq s.texts o.id id) (ground arith)
  is_member-listing f g id user (some (delete m)) source db =
      s.smembers-srem db _ _ _ _ ∙ rw (latest_obj_list-beq f g, encode-beq s.texts m.id id)

  is_member-step :
      (f g id user : String) (offset : ℤ) (input : Blob) (t : Option ChangeType)
      (source : Option ChangeSource) (db : s.Db)
      → ((u : ChangeType) → t ≡ some u → IsPlainId (type_id u))
      → is_member
          (update_decoded s f offset input
            (record { user = user; change_type = t; change_source = source })
            db).1
          g
          id
        ≡ (if f == g then listed_after id t (is_member db g id) else is_member db g id)
  unfolding update_decoded store_object_change store_file_offset
  is_member-step f g id user offset input none source db h = ground arith
  is_member-step f g id user offset input (some t) source db h =
      let there : obj_cache f (type_id t) ≢ latest_obj_list g =
        λ q. latest_obj_list-ne-obj_cache f g (type_id t) (h t refl) (sym q) in
      let stored =
        s.smembers-lpush db _ (latest_obj_list g)
          (s.entries.encode (record { offset = offset; object = input })) there in
      let moved =
        s.smembers-put _ (file_offset f) (latest_obj_list g) (s.numbers.encode offset)
          (file_offset-ne-latest_obj_list f g)
        ∙ stored in
      is_member-listing f g id user (some t) source _
      ∙ ap
          (λ ms.
            if f == g
            then listed_after id (some t) (contains ms (s.texts.encode id))
            else contains ms (s.texts.encode id))
          moved

  -- After a log of plain ids the set of live objects holds exactly the objects whose last Add or
  -- Delete in the log is an Add, beside those it held before and that the log neither adds nor
  -- deletes.
  pub is_member-consume :
      (log : List Commit) (file id : String) (db : s.Db)
      → IsPlainLog log
      → is_member (consume s log db) file id ≡ is_listed file id log (is_member db file id)
  unfolding handle_stream is_listed
  is_member-consume [] file id db h = refl
  is_member-consume (c ∷ log) file id db (h, hs) = rw (handle_message-step s c db) (
      is_member-consume log file id (step s c db) hs
      ∙ ap (is_listed file id log)
          (is_member-step c.file file id _ c.offset _ c.change.change_type _ db h))

  file_offset-beq : (f g : String) → (file_offset f == file_offset g) ≡ (f == g)
  unfolding file_offset
  file_offset-beq f g = elim (Eq-cases f g) [
    | inl (t, p) ↦ rw (t, p) (==_refl (file_offset g))
    | inr (t, n) ↦ elim (Eq-cases (file_offset f) (file_offset g)) [
      | inl (_, q) ↦
          absurd (n (colon_injective f g "offset" "offset" (omega arith) (omega arith) q).0)
      | inr (t', _) ↦ rw t t'
    ]
  ]

  abbrev offset_of : Option ℤ → Option Blob
  offset_of none = none
  offset_of (some z) = some (s.numbers.encode z)

  get-step :
      (f g user : String) (offset : ℤ) (input : Blob) (t : Option ChangeType)
      (source : Option ChangeSource) (db : s.Db) (before : Option ℤ)
      → ((u : ChangeType) → t ≡ some u → IsPlainId (type_id u))
      → s.get db (file_offset g) ≡ offset_of before
      → s.get
          (update_decoded s f offset input
            (record { user = user; change_type = t; change_source = source })
            db).1
          (file_offset g)
        ≡ offset_of (elim t [ none ↦ before | some _ ↦ if f == g then some offset else before ])
  unfolding update_decoded store_object_change store_file_offset
  get-step f g user offset input none source db before h e = e
  get-step f g user offset input (some t) source db before h e =
      listing t _ ∙ s.get-put _ _ _ _ ∙ rw (file_offset-beq f g) (choose (f == g))
    where
      listing :
          (u : ChangeType) (d : s.Db)
          → s.get
              (update_latest_obj_list s f
                (record { user = user; change_type = some u; change_source = source })
                d).1
              (file_offset g)
            ≡ s.get d (file_offset g)
      listing (modify o) d = refl
      listing (add o) d = s.get-sadd d _ _ _ (λ q. file_offset-ne-latest_obj_list g f (sym q))
      listing (delete m) d = s.get-srem d _ _ _ (λ q. file_offset-ne-latest_obj_list g f (sym q))

      choose :
          (b : Bool)
          → (if b
              then some (s.numbers.encode offset)
              else s.get
                  (s.lpush
                    (obj_cache f (type_id t))
                    (s.entries.encode (record { offset = offset; object = input }))
                    db)
                  (file_offset g))
            ≡ offset_of (if b then some offset else before)
      choose true = refl
      choose false =
          s.get-lpush db _ _ _ (λ q. file_offset-ne-obj_cache f g (type_id t) (h t refl) (sym q))
          ∙ e

  get-consume :
      (log : List Commit) (file : String) (db : s.Db) (before : Option ℤ)
      → IsPlainLog log
      → s.get db (file_offset file) ≡ offset_of before
      → s.get (consume s log db) (file_offset file) ≡ offset_of (last_offset file log before)
  unfolding handle_stream last_offset
  get-consume [] file db before h e = e
  get-consume (c ∷ log) file db before (h, hs) e = rw (handle_message-step s c db) (
      get-consume log file (step s c db) _ hs
        (get-step c.file file _ c.offset _ c.change.change_type _ db before h e))

  -- After a log of plain ids over an empty database, get_latest_offset of a file is the offset of
  -- the last change of that file that has a type, and an error of the client where the log has
  -- none.
  pub get_latest_offset-consume :
      (log : List Commit) (file : String) (db : s.Db)
      → IsPlainLog log
      → s.get db (file_offset file) ≡ none
      → get_latest_offset s file (consume s log db)
        ≡ (elim (last_offset file log none) [ none ↦ err database_error | some z ↦ ok z ])
  unfolding get_latest_offset
  get_latest_offset-consume log file db h e =
      rw (get-consume log file db none h e, get_latest_offset) (read (last_offset file log none))
    where
      read :
          (o : Option ℤ)
          → (elim (offset_of o) as (λ _. Result ObjError ℤ) [
            | none ↦ err database_error
            | some value ↦ elim (s.numbers.decode value) [
              | none ↦ err database_error
              | some offset ↦ ok offset
            ]
          ])
            ≡ (elim o [ none ↦ err database_error | some z ↦ ok z ])
      read none = refl
      read (some z) = rw (s.numbers.decode-encode z)
