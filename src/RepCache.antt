-- ===== src/RepCache.antt =====
-- rep_cache/src/cache.rs, rep_cache/src/kafka.rs and the request of rep_cache/src/main.rs: the
-- latest representation of every object.
pub mod Consumed
use kafka_cad.Prelude.{String, Option, none, some, List, [], ◌∷◌, Eq}
use kafka_cad.Prelude.Int.{ℤ}
use kafka_cad.Prelude.Text.{colon}
use kafka_cad.Prelude.Result.{Result, ok, err}
use kafka_cad.Prelude.Exec.{Exec}
use kafka_cad.Redis.{Codec, Redis}
use kafka_cad.Kafka
use kafka_cad.Kafka.{Message, UpdateError, Event}

-- The message of proto/representation.proto; what it draws is not looked at.
pub record UpdateChangeMsg (Output : Type 0) : Type 0 where
  pub file : String
  pub user : String
  pub obj_id : String
  pub update : Option Output

pub data RepCacheError : Type 0 where
  obj_not_found : String → RepCacheError
  prost_encode_error prost_decode_error database_error : RepCacheError

pub data StatusCode : Type 0 where
  internal not_found : StatusCode

-- impl Into<tonic::Status> for RepCacheError
pub status_code : RepCacheError → StatusCode
status_code (obj_not_found _) = not_found
status_code prost_encode_error = internal
status_code prost_decode_error = internal
status_code database_error = internal

pub obj_rep_cache : String → String → String
obj_rep_cache file key = colon file key

pub record Services (Blob Output : Type 0) ⦃e : Eq Blob⦄ : Type 1 where
  pub redis : Redis Blob
  pub open redis use *
  pub reps : Codec Blob (UpdateChangeMsg Output)
  pub texts : Codec Blob String

module _ {Blob Output : Type 0} ⦃e : Eq Blob⦄ (s : Services Blob Output) where
  pub store_object_rep : String → String → Blob → Exec s.Db RepCacheError (Unit {0})
  store_object_rep file key obj db = (ok tt, s.put (obj_rep_cache file key) obj db)

  pub get_object_rep : String → String → s.Db → Result RepCacheError (UpdateChangeMsg Output)
  get_object_rep file key db = elim (s.get db (obj_rep_cache file key)) [
    | none ↦ err (obj_not_found key)
    | some rep_bin ↦ elim (s.reps.decode rep_bin) [
      | none ↦ err prost_decode_error
      | some rep ↦ ok rep
    ]
  ]

  -- The consumer passes an offset, which is not used.
  pub update_object_rep_cache : String → ℤ → Blob → Exec s.Db RepCacheError (Unit {0})
  update_object_rep_cache file offset input db = elim (s.reps.decode input) [
    | none ↦ (err prost_decode_error, db)
    | some object ↦ store_object_rep file object.obj_id input db
  ]

  pub handle_message : Message Blob → Exec s.Db (UpdateError RepCacheError) (Unit {0})
  handle_message = Kafka.handle_message s.texts update_object_rep_cache

  pub handle_stream : List (Event Blob) → s.Db → s.Db
  handle_stream = Kafka.handle_stream s.texts update_object_rep_cache

  -- The request of main.rs: the first error ends it.
  pub get_object_representations :
      String → List String → s.Db → Result StatusCode (List (UpdateChangeMsg Output))
  get_object_representations file [] db = ok []
  get_object_representations file (id ∷ obj_ids) db = elim (get_object_rep file id db) [
    | err error ↦ err (status_code error)
    | ok rep ↦ elim (get_object_representations file obj_ids db) [
      | err status ↦ err status
      | ok reps ↦ ok (rep ∷ reps)
    ]
  ]
