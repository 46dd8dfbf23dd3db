-- ===== src/Dependencies/Server/History.antt =====
-- The dependency service after a log: the subscribers of every reference at every offset.
use kafka_cad.Prelude.{
  String, ◌≡◌, refl, ap, ◌∙◌, Option, none, some, List, [], ◌∷◌, map, Eq, string_eq, Bool-cases,
  inl, inr, if◌then◌else◌,
}
use kafka_cad.Prelude.Int.{ℤ, pos, leb_ℤ}
use kafka_cad.Prelude.Result.{ok}
use kafka_cad.State.{ReferenceMsg, ChangeType, ChangeMsg, type_id}
use kafka_cad.Kafka
use kafka_cad.Kafka.{Event, received, cache_result-state}
use kafka_cad.Dependencies.{Services, DepChange, get_ref_id_subs, get_obj_refs}
use kafka_cad.Dependencies.Refs.{RefId, ref_id_eq}
use kafka_cad.Dependencies.Updates.{update_deps_inner, update_deps}
use kafka_cad.Dependencies.Updates.Pending.{pending}
use kafka_cad.Dependencies.Updates.Writes.{reading}
use kafka_cad.Dependencies.Updates.Lookups.{
  Stored, edits_of, stored_by, stored_after, update_deps_inner-Edited,
}
use kafka_cad.Dependencies.Server.{handle_stream}

-- What the service knows of a file, with keys and codecs gone: the subscribers of each reference at
-- each offset, and the references stored of each object.
pub record Model : Type 0 where
  pub subs : RefId → ℤ → List RefId
  pub stored : String → Stored

abbrev pub type_edits :
    Option ChangeType → (String → Stored) → List (Option (ReferenceMsg × DepChange))
type_edits o stored = elim o [ none ↦ [] | some t ↦ edits_of t (stored (type_id t)) ]

-- The subscribers that are read at an offset after a version was made at another, where one was.
abbrev pub newer : ℤ → Option (List RefId) → ℤ → List RefId → List RefId
newer offset none at before = before
newer offset (some subs) at before = if leb_ℤ offset at then subs else before

-- One change: the edits are made on the subscribers at its offset.
abbrev pub change_model : ℤ → ChangeMsg → Model → Model
change_model offset change m = record {
  subs = λ r at.
      newer offset (pending (type_edits change.change_type m.stored) r (m.subs r offset) none) at
        (m.subs r at);
  stored = λ id.
      stored_after offset
        (elim change.change_type [ none ↦ none | some t ↦ stored_by t (m.stored (type_id t)) ]) id
        (m.stored id);
}

abbrev pub after_log : List (ℤ × ChangeMsg) → Model → Model
after_log [] m = m
after_log ((offset, change) ∷ log) m = after_log log (change_model offset change m)

module _ {Blob : Type 0} ⦃e : Eq Blob⦄ (s : Services Blob) (file : String) where
  pub record Represents (db : s.Db) (m : Model) : Type 0 where
    pub reads : (r : RefId) (at : ℤ) → get_ref_id_subs s file r at db ≡ ok (m.subs r at)
    pub reads_refs : (id : String) → get_obj_refs s file id db ≡ ok (m.stored id)

  reading-newer :
      (offset at : ℤ) (o : Option (List RefId)) (before : List RefId)
      → reading s file offset o at (ok before) ≡ ok (newer offset o at before)
  reading-newer offset at none before = refl
  reading-newer offset at (some subs) before = elim (Bool-cases (leb_ℤ offset at)) [
    | inl t ↦ rw t
    | inr t ↦ rw t
  ]

  step-Represents :
      (offset : ℤ) (change : ChangeMsg) (db : s.Db) (m : Model)
      → Represents db m
      → Represents (update_deps_inner s file offset change db).1 (change_model offset change m)
  step-Represents offset change db m r =
      let done =
        update_deps_inner-Edited s file offset db (λ a. m.subs a offset) m.stored
          (λ a. r.reads a offset) r.reads_refs change in
      record {
        reads = λ a at.
            done.lookups a at
            ∙ ap
                (reading s file offset
                  (pending (type_edits change.change_type m.stored) a (m.subs a offset) none) at)
                (r.reads a at)
            ∙ reading-newer offset at _ (m.subs a at);
        reads_refs = done.refs;
      }

  abbrev pub deliver : ℤ × ChangeMsg → Event Blob
  deliver (offset, change) = received (record {
    partition = pos 0;
    offset = offset;
    payload = some (s.changes.encode change);
    key = some (s.texts.encode file);
  })

  -- A database that represents what is known of a file represents, after the service has consumed a
  -- log of changes of the file, what is known after these changes.
  pub handle_stream-Represents :
      (log : List (ℤ × ChangeMsg)) (db : s.Db) (m : Model)
      → Represents db m
      → Represents (handle_stream s (map deliver log) db) (after_log log m)
  unfolding handle_stream Kafka.handle_stream Kafka.handle_message update_deps
  handle_stream-Represents [] db m r = r
  handle_stream-Represents ((offset, change) ∷ log) db m r =
      rw
        (
          s.texts.decode-encode file,
          s.changes.decode-encode change,
          Kafka.handle_message,
          update_deps,
          cache_result-state (update_deps_inner s file offset change db),
        )
        (handle_stream-Represents log _ _ (step-Represents offset change db m r))
