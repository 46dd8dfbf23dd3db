-- ===== src/Representations.antt =====
-- representations/src: the representation of each change of the ObjectState topic is computed by
-- the operations service and sent to the topic that rep_cache and updates consume.
pub mod Added
pub mod Sent
pub mod Drawn
use kafka_cad.Prelude.{String, Option, none, some, List, [], ◌∷◌, get_last?}
use kafka_cad.Prelude.Int.{ℤ}
use kafka_cad.Prelude.Result.{Result, ok, err}
use kafka_cad.Status.{Code}
use kafka_cad.State.{ChangeMsg, type_id}
use kafka_cad.Redis.{Codec}
use kafka_cad.Kafka.{Message, Event, received, failed}
use kafka_cad.Kafka.Producer.{Producer}
use kafka_cad.RepCache.{UpdateChangeMsg}

pub data RepresentationError : Type 0 where
  kafka_error string_error : RepresentationError
  payload_error file_error : ℤ → ℤ → RepresentationError
  transport_error : RepresentationError
  service_error : Code → RepresentationError
  prost_encode_error prost_decode_error no_change_type : RepresentationError

-- The codecs, the producer, and the operations service: the error is one of the connection or of
-- the request.
pub record Services (Blob Output : Type 0) : Type 1 where
  pub texts : Codec Blob String
  pub changes : Codec Blob ChangeMsg
  pub reps : Codec Blob (UpdateChangeMsg Output)
  pub client_representation : List ChangeMsg → Result RepresentationError (List Output)
  pub producer : Producer Blob

module _ {Blob Output : Type 0} (s : Services Blob Output) where
  abbrev pub Topic : Type 0
  Topic = s.producer.Topic

  unfoldable pub call_service : ChangeMsg → Result RepresentationError (Option Output)
  call_service object = elim (s.client_representation (object ∷ [])) [
    | err e ↦ err e
    | ok outputs ↦ ok (get_last? outputs)
  ]

  -- A message that is not delivered is a panic, which is none here.
  unfoldable pub submit_representations :
      String
      → UpdateChangeMsg Output
      → Topic
      → Option (Result RepresentationError (Unit {0})) × Topic
  submit_representations file msg t =
      let (status, t') = s.producer.send (s.texts.encode file) (s.reps.encode msg) t in
      (elim status [ none ↦ none | some offset ↦ some (ok tt) ], t')

  -- What calc_representation sends of a change.
  unfoldable pub represent :
      String → ChangeMsg → Result RepresentationError (Option (UpdateChangeMsg Output))
  represent file change = elim change.change_type [
    | none ↦ err no_change_type
    | some t ↦ elim (call_service change) [
      | err e ↦ err e
      | ok none ↦ ok none
      | ok (some repr) ↦ ok (
          some (record { file = file; user = change.user; obj_id = type_id t; update = some repr }))
    ]
  ]

  unfoldable pub send_representation :
      String
      → Result RepresentationError (Option (UpdateChangeMsg Output))
      → Topic
      → Option (Result RepresentationError (Unit {0})) × Topic
  send_representation file (err e) t = (some (err e), t)
  send_representation file (ok none) t = (some (ok tt), t)
  send_representation file (ok (some update)) t = submit_representations file update t

  unfoldable pub calc_representation :
      String → Blob → Topic → Option (Result RepresentationError (Unit {0})) × Topic
  calc_representation file msg t = elim (s.changes.decode msg) [
    | none ↦ (some (err prost_decode_error), t)
    | some change ↦ send_representation file (represent file change) t
  ]

  unfoldable pub handle_message :
      Message Blob → Topic → Option (Result RepresentationError (Unit {0})) × Topic
  handle_message m t = elim m.payload [
    | none ↦ (some (err (payload_error m.partition m.offset)), t)
    | some bytes ↦ elim m.key [
      | none ↦ (some (err (file_error m.partition m.offset)), t)
      | some file_bytes ↦ elim (s.texts.decode file_bytes) [
        | none ↦ (some (err string_error), t)
        | some file ↦ calc_representation file bytes t
      ]
    ]
  ]

  -- An error ends only its own message, a panic the loop.
  unfoldable pub handle_stream : List (Event Blob) → Topic → Topic
  handle_stream [] t = t
  handle_stream (failed ∷ events) t = handle_stream events t
  handle_stream (received m ∷ events) t =
      let (outcome, t') = handle_message m t in
      let rest = handle_stream events t' in elim outcome [ none ↦ t' | some _ ↦ rest ]
