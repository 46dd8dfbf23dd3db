-- ===== src/Submit/Server.antt =====
-- The request of submit/src/main.rs, after the connections are made.
pub mod Newest
pub mod Written
use kafka_cad.Prelude.{String, Option, none, some, List}
use kafka_cad.Prelude.Int.{ℤ}
use kafka_cad.Prelude.Result.{Result, ok, err}
use kafka_cad.State.{ChangeMsg}
use kafka_cad.Redis.{Codec}
use kafka_cad.Submit.{Clients, update_changes}
use kafka_cad.Submit.Produce
use kafka_cad.Kafka.Producer.{Producer}

pub record SubmitChangesInput : Type 0 where
  pub file : String
  pub user : String
  pub offset : ℤ
  pub changes : List ChangeMsg

-- The answer is none where the producer panics.
module _ {Blob Status : Type 0} (clients : Clients Status) (p : Producer Blob)
    (texts : Codec Blob String) (codec : Codec Blob ChangeMsg) where
  unfoldable pub submit_changes :
      SubmitChangesInput → p.Topic → Option (Result Status (List ℤ)) × p.Topic
  submit_changes msg t = elim (update_changes clients msg.file msg.user msg.offset msg.changes) [
    | err status ↦ (some (err status), t)
    | ok updated ↦
        let (delivered, t') = Produce.submit_changes p texts codec msg.file updated t in
        (elim delivered [ none ↦ none | some offsets ↦ some (ok offsets) ], t')
  ]
