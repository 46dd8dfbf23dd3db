-- ===== src/Dependencies/Server.antt =====
-- dependencies/src/main.rs and dependencies/src/kafka.rs: the request of the service, and its
-- consumer.
pub mod Searches
pub mod History
use kafka_cad.Prelude.{ℕ, String, Option, none, some, List, Eq}
use kafka_cad.Prelude.Int.{ℤ}
use kafka_cad.Prelude.Result.{Result, ok, err}
use kafka_cad.Prelude.Exec.{Exec}
use kafka_cad.State.{RefIdMsg, ReferenceMsg}
use kafka_cad.Kafka
use kafka_cad.Kafka.{Message, UpdateError, Event}
use kafka_cad.Dependencies.{DepError, StatusCode, status_code, Services}
use kafka_cad.Dependencies.Updates.{update_deps}
use kafka_cad.Dependencies.Search.{get_all_deps}

module _ {Blob : Type 0} ⦃e : Eq Blob⦄ (s : Services Blob) where
  pub handle_message : Message Blob → Exec s.Db (UpdateError DepError) (Unit {0})
  handle_message = Kafka.handle_message s.texts (update_deps s)

  pub handle_stream : List (Event Blob) → s.Db → s.Db
  handle_stream = Kafka.handle_stream s.texts (update_deps s)

  -- None where the fuel of a search is not enough.
  pub get_all_dependencies :
      ℕ → String → ℤ → List RefIdMsg → s.Db → Option (Result StatusCode (List ReferenceMsg))
  get_all_dependencies fuel file offset ids db = elim (get_all_deps s fuel file offset ids db) [
    | none ↦ none
    | some run ↦ elim run [
      | err error ↦ some (err (status_code error))
      | ok references ↦ some (ok references)
    ]
  ]
