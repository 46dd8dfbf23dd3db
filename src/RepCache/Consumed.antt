-- ===== src/RepCache/Consumed.antt =====
-- The cache of representations after a log of updates.
use kafka_cad.Prelude.{
  String, ◌≡◌, refl, ap₂, ◌∙◌, sym, Bool, ◌&&◌, Option, none, some, List, [], ◌∷◌, map, Eq,
  string_eq, ◌==◌, Eq-cases, inl, inr, if◌then◌else◌,
}
use kafka_cad.Prelude.Int.{ℤ, pos}
use kafka_cad.Prelude.Text.{NoColon, colon_injective}
use kafka_cad.Prelude.Result.{Result, ok, err}
use kafka_cad.Kafka
use kafka_cad.Kafka.{Message, Event, received, cache_result-state}
use kafka_cad.RepCache.{
  UpdateChangeMsg, RepCacheError, obj_not_found, prost_decode_error, not_found, status_code,
  StatusCode, Services, obj_rep_cache, store_object_rep, get_object_rep, update_object_rep_cache,
  handle_stream, get_object_representations,
}

-- An update of the topic, under the key of its file.
pub record Update (Output : Type 0) : Type 0 where
  pub file : String
  pub offset : ℤ
  pub rep : UpdateChangeMsg Output

module _ {Output : Type 0} where
  abbrev pub is_update : String → String → Update Output → Bool
  is_update file id u = u.file == file && u.rep.obj_id == id

  -- The last update of the object in the log, or the one given.
  abbrev pub last_rep :
      String
      → String
      → List (Update Output)
      → Option (UpdateChangeMsg Output)
      → Option (UpdateChangeMsg Output)
  last_rep file id [] given = given
  last_rep file id (u ∷ log) given =
      last_rep file id log (if is_update file id u then some u.rep else given)

  -- The objects of the log have ids without a colon.
  abbrev pub ArePlain : List (Update Output) → Type 0
  ArePlain [] = Unit {0}
  ArePlain (u ∷ log) = NoColon u.rep.obj_id × ArePlain log

  abbrev pub answer :
      String → Option (UpdateChangeMsg Output) → Result RepCacheError (UpdateChangeMsg Output)
  answer id none = err (obj_not_found id)
  answer id (some rep) = ok rep

module _ {Blob Output : Type 0} ⦃e : Eq Blob⦄ (s : Services Blob Output) where
  abbrev pub deliver : Update Output → Event Blob
  deliver u = received (record {
    partition = pos 0;
    offset = u.offset;
    payload = some (s.reps.encode u.rep);
    key = some (s.texts.encode u.file);
  })

  abbrev pub consume : List (Update Output) → s.Db → s.Db
  consume log db = handle_stream s (map deliver log) db

  -- What is stored of an object.
  abbrev pub holds : Option (UpdateChangeMsg Output) → Option Blob
  holds none = none
  holds (some rep) = some (s.reps.encode rep)

  key-beq :
      (f g id k : String)
      → NoColon id
      → NoColon k
      → (obj_rep_cache f id == obj_rep_cache g k) ≡ (f == g && id == k)
  unfolding obj_rep_cache
  key-beq f g id k h h' = elim (Eq-cases (obj_rep_cache f id) (obj_rep_cache g k)) [
    | inl (t, p) ↦
        let (q, r) = colon_injective f g id k h h' p in
        t ∙ sym (rw ((string_eq.beq_iff f g).1 q, (string_eq.beq_iff id k).1 r) refl)
    | inr (t, n) ↦
        t
        ∙ sym (elim (Eq-cases f g) [
          | inr (u, _) ↦ rw u
          | inl (u, q) ↦ elim (Eq-cases id k) [
            | inr (v, _) ↦ rw (u, v)
            | inl (_, r) ↦ absurd (n (ap₂ obj_rep_cache q r))
          ]
        ])
  ]

  get-update :
      (file id : String) (u : Update Output) (db : s.Db) (given : Option (UpdateChangeMsg Output))
      → NoColon u.rep.obj_id
      → NoColon id
      → s.get db (obj_rep_cache file id) ≡ holds given
      → s.get
          (update_object_rep_cache s u.file u.offset (s.reps.encode u.rep) db).1
          (obj_rep_cache file id)
        ≡ holds (if is_update file id u then some u.rep else given)
  unfolding update_object_rep_cache store_object_rep
  get-update file id u db given h k p =
      rw (s.reps.decode-encode u.rep, update_object_rep_cache)
        (s.get-put db _ _ _
          ∙ rw (key-beq u.file file u.rep.obj_id id h k) (elim (Eq-cases u.file file) [
            | inr (t, _) ↦ rw t p
            | inl (t, _) ↦ elim (Eq-cases u.rep.obj_id id) [
              | inl (t', _) ↦ rw (t, t')
              | inr (t', _) ↦ rw (t, t') p
            ]
          ]))

  get-consume :
      (file id : String) (log : List (Update Output)) (db : s.Db)
      (given : Option (UpdateChangeMsg Output))
      → ArePlain log
      → NoColon id
      → s.get db (obj_rep_cache file id) ≡ holds given
      → s.get (consume log db) (obj_rep_cache file id) ≡ holds (last_rep file id log given)
  unfolding handle_stream Kafka.handle_stream Kafka.handle_message
  get-consume file id [] db given h k p = p
  get-consume file id (u ∷ log) db given (h, hs) k p =
      rw
        (
          s.texts.decode-encode u.file,
          cache_result-state (update_object_rep_cache s u.file u.offset (s.reps.encode u.rep) db),
          Kafka.handle_message,
        )
        (get-consume file id log _ _ hs k (get-update file id u db given h k p))

  -- After a log of updates of ids without a colon, from nothing stored of the object, the
  -- representation of an object whose id has no colon is the one of its last update in the file,
  -- and ObjNotFound where the log has none.
  pub get_object_rep-consume :
      (file id : String) (log : List (Update Output)) (db : s.Db)
      → ArePlain log
      → NoColon id
      → s.get db (obj_rep_cache file id) ≡ none
      → get_object_rep s file id (consume log db) ≡ answer id (last_rep file id log none)
  unfolding get_object_rep
  get_object_rep-consume file id log db h k p =
      rw (get-consume file id log db none h k p, get_object_rep) (go (last_rep file id log none))
    where
      go :
          (o : Option (UpdateChangeMsg Output))
          → (elim (holds o) [
            | none ↦ err (obj_not_found id)
            | some rep_bin ↦ elim (s.reps.decode rep_bin) [
              | none ↦ err prost_decode_error
              | some rep ↦ ok rep
            ]
          ])
            ≡ answer id o
      go none = refl
      go (some rep) = rw (s.reps.decode-encode rep)

  -- The representations that a log has for some objects, where it has one for each.
  abbrev pub all_reps :
      String
      → List (Update Output)
      → List String
      → Result StatusCode (List (UpdateChangeMsg Output))
  all_reps file log [] = ok []
  all_reps file log (id ∷ ids) = elim (last_rep file id log none) [
    | none ↦ err not_found
    | some rep ↦ elim (all_reps file log ids) [
      | err status ↦ err status
      | ok reps ↦ ok (rep ∷ reps)
    ]
  ]

  abbrev pub AreIds : List String → Type 0
  AreIds [] = Unit {0}
  AreIds (id ∷ ids) = NoColon id × AreIds ids

  -- After a log of updates of ids without a colon into an empty cache of the file, the
  -- representations of ids without a colon are those of their last updates, in the order of the
  -- request; where one of them has no update the request is refused as not found.
  pub get_object_representations-consume :
      (file : String) (ids : List String) (log : List (Update Output)) (db : s.Db)
      → ArePlain log
      → AreIds ids
      → ((id : String) → s.get db (obj_rep_cache file id) ≡ none)
      → get_object_representations s file ids (consume log db) ≡ all_reps file log ids
  unfolding get_object_representations status_code
  get_object_representations-consume file [] log db h k p = refl
  get_object_representations-consume file (id ∷ ids) log db h (k, ks) p =
      rw (get_object_rep-consume file id log db h k (p id), get_object_representations)
        (go (last_rep file id log none) (get_object_representations-consume file ids log db h ks p))
    where
      go :
          (o : Option (UpdateChangeMsg Output))
          → get_object_representations s file ids (consume log db) ≡ all_reps file log ids
          → ◌≡◌ {A = Result StatusCode (List (UpdateChangeMsg Output))}
              (elim (answer id o) [
                | err error ↦ err (status_code error)
                | ok rep ↦ elim (get_object_representations s file ids (consume log db)) [
                  | err status ↦ err status
                  | ok reps ↦ ok (rep ∷ reps)
                ]
              ])
              (elim o [
                | none ↦ err not_found
                | some rep ↦ elim (all_reps file log ids) [
                  | err status ↦ err status
                  | ok reps ↦ ok (rep ∷ reps)
                ]
              ])
      go none rest = refl
      go (some rep) rest = rw rest
