-- ===== src/Representations/Added.antt =====
-- What the representations service adds to its topic for a part of the log of changes.
use mathlib.Core.List.{append_assoc, append-nil, map-append}
use kafka_cad.Prelude.{
  String, ◌≡◌, refl, sym, ap, ◌∙◌, Option, none, some, List, [], ◌∷◌, ◌++◌, map, string_eq,
}
use kafka_cad.Prelude.Int.{ℤ, pos}
use kafka_cad.Prelude.Text.{NoColon}
use kafka_cad.Prelude.Result.{Result, ok, err}
use kafka_cad.State.{ChangeType, ChangeSource, type_id}
use kafka_cad.Kafka.{Message, Event, received}
use kafka_cad.Objects.History.{Commit}
use kafka_cad.RepCache.{UpdateChangeMsg}
use kafka_cad.RepCache.Consumed.{Update, last_rep, ArePlain}
use kafka_cad.Representations.{RepresentationError, Services, Topic, call_service, represent}

module _ {Blob Output : Type 0} (s : Services Blob Output) where
  -- A commit as the topic ObjectState has it.
  abbrev pub state_event : Commit → Event Blob
  state_event c = received (record {
    partition = pos 0;
    offset = c.offset;
    payload = some (s.changes.encode c.change);
    key = some (s.texts.encode c.file);
  })

  -- What is sent, where it is sent under the file `file` and is of the object.
  abbrev pub drawn_or :
      String
      → String
      → String
      → Result RepresentationError (Option (UpdateChangeMsg Output))
      → Option (UpdateChangeMsg Output)
      → Option (UpdateChangeMsg Output)
  drawn_or file id under (err e) given = given
  drawn_or file id under (ok none) given = given
  drawn_or file id under (ok (some rep)) given =
      last_rep file id (record { file = under; offset = pos 0; rep = rep } ∷ []) given

  -- The last representation of the object that the log has, or the one given.
  abbrev pub last_sent :
      String
      → String
      → List Commit
      → Option (UpdateChangeMsg Output)
      → Option (UpdateChangeMsg Output)
  last_sent file id [] given = given
  last_sent file id (c ∷ log) given =
      last_sent file id log (drawn_or file id c.file (represent s c.file c.change) given)

  abbrev pub AreNoColon : List Commit → Type 0
  AreNoColon [] = Unit {0}
  AreNoColon (c ∷ log) =
      ((t : ChangeType) → c.change.change_type ≡ some t → NoColon (type_id t)) × AreNoColon log

  abbrev pub Delivers : Type 0
  Delivers =
      (key payload : Blob) (t : Topic s)
      → (offset : ℤ) × (t' : Topic s) × (s.producer.send key payload t ≡ (some offset, t'))

  abbrev pub update_message : Update Output → Message Blob
  update_message u = record {
    partition = pos 0;
    offset = u.offset;
    payload = some (s.reps.encode u.rep);
    key = some (s.texts.encode u.file);
  }

  last_rep-append :
      (file id : String) (us vs : List (Update Output)) (given : Option (UpdateChangeMsg Output))
      → last_rep file id (us ++ vs) given ≡ last_rep file id vs (last_rep file id us given)
  last_rep-append file id [] vs given = refl
  last_rep-append file id (u ∷ us) vs given = last_rep-append file id us vs _

  ArePlain-append : (us vs : List (Update Output)) → ArePlain us → ArePlain vs → ArePlain (us ++ vs)
  ArePlain-append [] vs h k = k
  ArePlain-append (u ∷ us) vs (h, hs) k = (h, ArePlain-append us vs hs k)

  -- What a part of the log adds to the topic of representations.
  pub record Adds (t t' : Topic s)
      (drawn : String → String → Option (UpdateChangeMsg Output) → Option (UpdateChangeMsg Output))
      : Type 0 where
    pub updates : List (Update Output)
    pub messages_lem : s.producer.messages t' ≡ s.producer.messages t ++ map update_message updates
    pub plain : ArePlain updates
    pub last :
        (file id : String) (given : Option (UpdateChangeMsg Output))
        → last_rep file id updates given ≡ drawn file id given

  pub nothing_added : (t : Topic s) → Adds t t (λ file id given. given)
  nothing_added t = record {
    updates = [];
    messages_lem = sym (append-nil (s.producer.messages t));
    plain = tt;
    last = λ file id given. refl;
  }

  abbrev pub Change : Type 0
  Change = String → String → Option (UpdateChangeMsg Output) → Option (UpdateChangeMsg Output)

  pub both_added :
      (t t' t'' : Topic s) (f g : Change)
      → Adds t t' f
      → Adds t' t'' g
      → Adds t t'' (λ file id given. g file id (f file id given))
  both_added t t' t'' f g a b = record {
    updates = a.updates ++ b.updates;
    messages_lem =
        b.messages_lem
        ∙ ap (λ ms. ms ++ map update_message b.updates) a.messages_lem
        ∙ append_assoc (s.producer.messages t) (map update_message a.updates) _
        ∙ ap (◌++◌ (s.producer.messages t)) (sym (map-append update_message a.updates b.updates));
    plain = ArePlain-append a.updates b.updates a.plain b.plain;
    last = λ file id given.
        last_rep-append file id a.updates b.updates given
        ∙ ap (last_rep file id b.updates) (a.last file id given)
        ∙ b.last file id (f file id given);
  }

  abbrev pub IsPlainSent : Result RepresentationError (Option (UpdateChangeMsg Output)) → Type 0
  IsPlainSent (err e) = Unit {0}
  IsPlainSent (ok none) = Unit {0}
  IsPlainSent (ok (some rep)) = NoColon rep.obj_id

  pub represent-IsPlainSent :
      (file user : String) (o : Option ChangeType) (source : Option ChangeSource)
      → ((t : ChangeType) → o ≡ some t → NoColon (type_id t))
      → IsPlainSent
          (represent s file (record { user = user; change_type = o; change_source = source }))
  unfolding represent
  represent-IsPlainSent file user none source h = tt
  represent-IsPlainSent file user (some t) source h =
      go (call_service s (record { user = user; change_type = some t; change_source = source }))
    where
      go :
          (r : Result RepresentationError (Option Output))
          → IsPlainSent (elim r [
            | err e ↦ err e
            | ok none ↦ ok none
            | ok (some repr) ↦
                ok (
                  some
                    (record { file = file; user = user; obj_id = type_id t; update = some repr }))
          ])
      go (err e) = tt
      go (ok none) = tt
      go (ok (some repr)) = h t refl
