-- ===== src/Submit/Produce.antt =====
-- submit/src/produce.rs: changes are sent to the ObjectState topic. The producer is a parameter.
use kafka_cad.Prelude.{String, Option, none, some, List, [], ◌∷◌}
use kafka_cad.Prelude.Int.{ℤ}
use kafka_cad.State.{ChangeMsg}
use kafka_cad.Redis.{Codec}
use kafka_cad.Kafka.Producer.{Producer}

-- The loop that waits for the delivery statuses. An error is a panic, which is none here.
unfoldable pub await_all : List (Option ℤ) → Option (List ℤ)
await_all [] = some []
await_all (none ∷ futures) = none
await_all (some offset ∷ futures) = elim (await_all futures) [
  | none ↦ none
  | some offsets ↦ some (offset ∷ offsets)
]

module _ {Blob : Type 0} (p : Producer Blob) (texts : Codec Blob String)
    (changes : Codec Blob ChangeMsg) where
  -- All messages are sent before the first status is looked at.
  unfoldable pub send_all : String → List ChangeMsg → p.Topic → List (Option ℤ) × p.Topic
  send_all file [] t = ([], t)
  send_all file (msg ∷ payloads) t =
      let (status, t') = p.send (texts.encode file) (changes.encode msg) t in
      let (futures, t'') = send_all file payloads t' in (status ∷ futures, t'')

  unfoldable pub submit_changes : String → List ChangeMsg → p.Topic → Option (List ℤ) × p.Topic
  submit_changes file payloads t =
      let (futures, t') = send_all file payloads t in (await_all futures, t')
