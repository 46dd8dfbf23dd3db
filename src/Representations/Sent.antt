-- ===== src/Representations/Sent.antt =====
-- What calc_representation of representations/src/main.rs sends for each change of a log.
use kafka_cad.Prelude.{
  String, ◌≡◌, refl, sym, ap, subst, ◌∙◌, Option, none, some, List, [], ◌∷◌, map, string_eq,
}
use kafka_cad.Prelude.Int.{pos}
use kafka_cad.Prelude.Result.{Result, ok, err}
use kafka_cad.Kafka.{Message, Event, received}
use kafka_cad.Objects.History.{Commit}
use kafka_cad.RepCache.{UpdateChangeMsg}
use kafka_cad.Representations.{
  RepresentationError, Services, Topic, submit_representations, represent, send_representation,
  calc_representation, handle_message, handle_stream,
}
use kafka_cad.Representations.Added.{
  drawn_or, last_sent, AreNoColon, Delivers, Adds, nothing_added, both_added, IsPlainSent,
  represent-IsPlainSent, state_event,
}

module _ {Blob Output : Type 0} (s : Services Blob Output) where
  -- What sending does, where all messages are delivered.
  abbrev Sends :
      String → Result RepresentationError (Option (UpdateChangeMsg Output)) → Topic s → Type 0
  Sends file r t =
      (o : Result RepresentationError (Unit {0})) × (t' : Topic s) × (send_representation s file r t
        ≡ (some o, t'))
      × Adds s t t' (λ f id given. drawn_or s f id file r given)

  sends :
      Delivers s
      → (file : String) (r : Result RepresentationError (Option (UpdateChangeMsg Output)))
        (t : Topic s)
      → IsPlainSent s r
      → Sends file r t
  unfolding send_representation submit_representations
  sends delivers file (err e) t h = (err e, t, refl, nothing_added s t)
  sends delivers file (ok none) t h = (ok tt, t, refl, nothing_added s t)
  sends delivers file (ok (some rep)) t h =
      let (offset, t', p) = delivers (s.texts.encode file) (s.reps.encode rep) t in
      (
        ok tt,
        t',
        rw (p, send_representation, submit_representations) refl,
        record {
          updates = record { file = file; offset = offset; rep = rep } ∷ [];
          messages_lem = s.producer.messages-send _ _ _ _ _ p;
          plain = (h, tt);
          last = λ f id given. refl;
        },
      )

  handle_message-send :
      (c : Commit) (t : Topic s)
      → handle_message s
          (record {
            partition = pos 0;
            offset = c.offset;
            payload = some (s.changes.encode c.change);
            key = some (s.texts.encode c.file);
          })
          t
        ≡ send_representation s c.file (represent s c.file c.change) t
  unfolding handle_message calc_representation
  handle_message-send c t =
      rw
        (
          s.texts.decode-encode c.file,
          s.changes.decode-encode c.change,
          handle_message,
          calc_representation,
        )
        refl

  handle_stream-next :
      (m : Message Blob) (events : List (Event Blob)) (t t' : Topic s)
      (o : Result RepresentationError (Unit {0}))
      → handle_message s m t ≡ (some o, t')
      → handle_stream s (received m ∷ events) t ≡ handle_stream s events t'
  unfolding handle_stream
  handle_stream-next m events t t' o p =
      ap (λ r. elim r.0 [ none ↦ r.1 | some _ ↦ handle_stream s events r.1 ]) p

  pub drawn_lem :
      Delivers s
      → (log : List Commit) (t : Topic s) → AreNoColon s log
      → Adds s t
          (handle_stream s (map (state_event s) log) t)
          (λ file id given. last_sent s file id log given)
  unfolding handle_stream
  drawn_lem delivers [] t h = nothing_added s t
  drawn_lem delivers (c ∷ log) t (h, hs) =
      let (o, t', p, adds) = sends delivers c.file (represent s c.file c.change) t (
        represent-IsPlainSent s c.file c.change.user c.change.change_type c.change.change_source
          h) in
      subst (λ t''. Adds s t t'' (λ file id given. last_sent s file id (c ∷ log) given))
        (sym (handle_stream-next _ (map (state_event s) log) t t' o (handle_message-send c t ∙ p)))
        (both_added s t t' (handle_stream s (map (state_event s) log) t')
          (λ f id given. drawn_or s f id c.file (represent s c.file c.change) given)
          (λ file id given. last_sent s file id log given) adds (drawn_lem delivers log t' hs))
