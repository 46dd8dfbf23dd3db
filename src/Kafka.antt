-- ===== src/Kafka.antt =====
-- The consumer that objects, dependencies, undo and rep_cache have each in a kafka.rs, which differ
-- in the cache update that they call. Kafka delivers the messages of a topic as a list of events.
pub mod Producer
use kafka_cad.Prelude.{String, ◌≡◌, refl, Option, none, some, List, [], ◌∷◌}
use kafka_cad.Prelude.Int.{ℤ}
use kafka_cad.Prelude.Result.{Result, ok, err}
use kafka_cad.Prelude.Exec.{Exec}
use kafka_cad.Redis.{Codec}

pub record Message (Blob : Type 0) : Type 0 where
  pub partition : ℤ
  pub offset : ℤ
  pub payload : Option Blob
  pub key : Option Blob

pub data UpdateError (E : Type 0) : Type 0 where
  cache_error : E → UpdateError E
  string_error : UpdateError E
  payload_error : ℤ → ℤ → UpdateError E
  file_error : ℤ → ℤ → UpdateError E

-- A message, or an error of Kafka or of the connection to Redis, which is logged.
pub data Event (Blob : Type 0) : Type 0 where
  received : Message Blob → Event Blob
  failed : Event Blob

abbrev pub cache_result : {Db E A : Type 0} → Result E A × Db → Result (UpdateError E) A × Db
cache_result (ok a, db) = (ok a, db)
cache_result (err e, db) = (err (cache_error e), db)

pub cache_result-state : {Db E A : Type 0} (r : Result E A × Db) → (cache_result r).1 ≡ r.1
cache_result-state (ok a, db) = refl
cache_result-state (err e, db) = refl

-- `texts` reads the file name from the key's bytes, as std::str::from_utf8 does.
module _ {Blob Db E : Type 0} (texts : Codec Blob String)
    (update : String → ℤ → Blob → Exec Db E (Unit {0})) where
  unfoldable pub handle_message : Message Blob → Exec Db (UpdateError E) (Unit {0})
  handle_message m db = elim m.payload [
    | none ↦ (err (payload_error m.partition m.offset), db)
    | some bytes ↦ elim m.key [
      | none ↦ (err (file_error m.partition m.offset), db)
      | some file_bytes ↦ elim (texts.decode file_bytes) [
        | none ↦ (err string_error, db)
        | some file ↦ cache_result (update file m.offset bytes db)
      ]
    ]
  ]

  -- An error ends only its own message.
  unfoldable pub handle_stream : List (Event Blob) → Db → Db
  handle_stream [] db = db
  handle_stream (failed ∷ events) db = handle_stream events db
  handle_stream (received m ∷ events) db = handle_stream events (handle_message m db).1
