-- ===== src/Representations/Drawn.antt =====
-- The representation service between the log of changes and rep_cache.
use mathlib.Core.List.{map-map}
use kafka_cad.Prelude.{
  ◌==◌, ◌&&◌, Bool, true, false, Option, get_last?, Option-cases, inl, inr, if◌then◌else◌, String,
  ◌≡◌, refl, sym, ap, ap₂, ◌∙◌, none, some, List, [], ◌∷◌, ◌++◌, map, Eq, string_eq,
}
use kafka_cad.Prelude.Int.{pos}
use kafka_cad.Prelude.Text.{NoColon}
use kafka_cad.Prelude.Int.{ℤ}
use kafka_cad.Prelude.Result.{err, ok, Result-cases}
use kafka_cad.State.{ChangeType, ChangeSource, ChangeMsg, type_id}
use kafka_cad.Redis.{Codec}
use kafka_cad.Kafka.{Message, received}
use kafka_cad.Objects.History.{Commit}
use kafka_cad.RepCache
use kafka_cad.RepCache.{UpdateChangeMsg, get_object_rep, obj_rep_cache}
use kafka_cad.RepCache.Consumed.{Update, answer, get_object_rep-consume}
use kafka_cad.Representations.{Services, Topic, call_service, represent, handle_stream}
use kafka_cad.Representations.Added.{
  drawn_or, last_sent, AreNoColon, Delivers, update_message, state_event,
}
use kafka_cad.Representations.Sent.{drawn_lem}

module _ {Blob Output : Type 0} ⦃e : Eq Blob⦄ (s : Services Blob Output)
    (cache : RepCache.Services Blob Output) where
  abbrev message_of : Update Output → Message Blob
  message_of u = record {
    partition = pos 0;
    offset = u.offset;
    payload = some (cache.reps.encode u.rep);
    key = some (cache.texts.encode u.file);
  }

  -- With the same codecs the messages are the same.
  messages_of :
      cache.texts ≡ s.texts
      → cache.reps ≡ s.reps
      → (updates : List (Update Output)) → map message_of updates ≡ map (update_message s) updates
  messages_of texts reps [] = refl
  messages_of texts reps (u ∷ updates) =
      ap₂ ◌∷◌
        (ap₂
          (λ (c : Codec Blob String) (r : Codec Blob (UpdateChangeMsg Output)). record {
            partition = pos 0;
            offset = u.offset;
            payload = some (r.encode u.rep);
            key = some (c.encode u.file);
          })
          texts reps)
        (messages_of texts reps updates)

-- What the operations service draws of a commit, where that is of the object: nothing for a change
-- without type, where it fails and where it answers nothing, and else its last answer.
abbrev pub drawn :
    {Blob Output : Type 0}
    → Services Blob Output
    → String
    → String
    → Commit
    → Option (UpdateChangeMsg Output)
drawn s file id c = elim c.change.change_type [
  | none ↦ none
  | some t ↦
      if c.file == file && type_id t == id
      then elim (s.client_representation (c.change ∷ [])) [
        | err e ↦ none
        | ok outputs ↦ elim (get_last? outputs) [
          | none ↦ none
          | some output ↦ some (record {
            file = c.file;
            user = c.change.user;
            obj_id = type_id t;
            update = some output;
          })
        ]
      ]
      else none
]

-- The last that is drawn of the object in the log, or the one given.
abbrev pub last_drawn :
    {Blob Output : Type 0}
    → Services Blob Output
    → String
    → String
    → List Commit
    → Option (UpdateChangeMsg Output)
    → Option (UpdateChangeMsg Output)
last_drawn s file id [] given = given
last_drawn s file id (c ∷ log) given =
    last_drawn s file id log (elim (drawn s file id c) [ none ↦ given | some u ↦ some u ])

module _ {Blob Output : Type 0} (s : Services Blob Output) where
  none_if :
      (b : Bool) (given : Option (UpdateChangeMsg Output))
      → given ≡ (elim (if◌then◌else◌ {A = Option (UpdateChangeMsg Output)} b none none) [
        | none ↦ given
        | some u ↦ some u
      ])
  none_if true given = refl
  none_if false given = refl

  some_if :
      (b : Bool) (rep : UpdateChangeMsg Output) (given : Option (UpdateChangeMsg Output))
      → (if b then some rep else given)
        ≡ (elim (if b then some rep else none) [ none ↦ given | some u ↦ some u ])
  some_if true rep given = refl
  some_if false rep given = refl

  drawn_or-drawn :
      (file id under user : String) (offset : ℤ) (o : Option ChangeType)
      (source : Option ChangeSource) (given : Option (UpdateChangeMsg Output))
      → (let change : ChangeMsg = record { user = user; change_type = o; change_source = source } in
          let c : Commit = record { file = under; offset = offset; change = change } in
          drawn_or s file id under (represent s under change) given
          ≡ (elim (drawn s file id c) [ none ↦ given | some u ↦ some u ]))
  unfolding represent call_service
  drawn_or-drawn file id under user offset none source given = refl
  drawn_or-drawn file id under user offset (some t) source given =
      elim (Result-cases (
        s.client_representation
          (record { user = user; change_type = some t; change_source = source } ∷ []))) [
            | inl (e, p) ↦
                rw (p, represent, call_service) (none_if (under == file && type_id t == id) given)
            | inr (outputs, p) ↦ elim (Option-cases (get_last? outputs)) [
              | inl q ↦
                  rw (p, q, represent, call_service)
                    (none_if (under == file && type_id t == id) given)
              | inr (output, q) ↦
                  rw (p, q, represent, call_service)
                    (some_if (under == file && type_id t == id) _ given)
            ]
          ]

  last_sent-drawn :
      (file id : String) (log : List Commit) (given : Option (UpdateChangeMsg Output))
      → last_sent s file id log given ≡ last_drawn s file id log given
  last_sent-drawn file id [] given = refl
  last_sent-drawn file id (c ∷ log) given =
      ap (last_sent s file id log) (
        drawn_or-drawn file id c.file c.change.user c.offset c.change.change_type
          c.change.change_source given)
      ∙ last_sent-drawn file id log _

-- With a producer that delivers everything: after the representations service has consumed a log of
-- changes, from an empty topic of representations, and rep_cache this topic, from nothing stored of
-- the object, the representation of an object is the last one that the operations service answered
-- for a change of it in the log, and ObjNotFound where there is none. A change without type, a
-- request that fails and one answered with nothing draw nothing. Ids have no colon.
pub get_object_rep-drawn :
    {Blob Output : Type 0} ⦃e : Eq Blob⦄ (s : Services Blob Output)
    (cache : RepCache.Services Blob Output) (file id : String) (log : List Commit) (t : Topic s)
    (db : cache.Db)
    → cache.texts ≡ s.texts
    → cache.reps ≡ s.reps
    → Delivers s
    → s.producer.messages t ≡ []
    → AreNoColon s log
    → NoColon id
    → cache.get db (obj_rep_cache file id) ≡ none
    → get_object_rep cache file id (
        RepCache.handle_stream cache
          (map received (s.producer.messages (handle_stream s (map (state_event s) log) t)))
          db)
      ≡ answer id (last_drawn s file id log none)
get_object_rep-drawn s cache file id log t db texts reps delivers start plain k empty =
    let adds = drawn_lem s delivers log t plain in
    ap (λ ms. get_object_rep cache file id (RepCache.handle_stream cache (map received ms) db))
      (adds.messages_lem
        ∙ ap (λ ms. ms ++ map (update_message s) adds.updates) start
        ∙ sym (messages_of s cache texts reps adds.updates))
    ∙ ap (λ es. get_object_rep cache file id (RepCache.handle_stream cache es db))
        (map-map received (message_of s cache) adds.updates)
    ∙ get_object_rep-consume cache file id adds.updates db adds.plain k empty
    ∙ ap (answer id) (adds.last file id none ∙ last_sent-drawn s file id log none)
