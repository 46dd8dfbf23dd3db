-- ===== src/Objects.antt =====
-- objects/src/cache.rs and objects/src/kafka.rs: the cache of all versions of all objects, which
-- tails the ObjectState topic. `kafka` and `redis` stand for the libraries.
pub mod Keys
pub mod History
pub mod Listing
pub mod Requests
pub mod Server
use kafka_cad.Prelude.{
  ℕ, zero, suc, ◌+◌, String, Bool, true, false, Option, none, some, List, [], ◌∷◌, Eq,
  if◌then◌else◌,
}
use kafka_cad.Prelude.Int.{ℤ, leb_ℤ}
use kafka_cad.Prelude.Text.{colon}
use kafka_cad.Prelude.Result.{Result, ok, err}
use kafka_cad.Prelude.Exec.{Exec, ◌>>=◌, ◌>>◌, pure, fail, gets, modifies}
use kafka_cad.State.{
  ChangeType, add, modify, delete, ChangeMsg, OptionChangeMsg, ObjectAtOffset, type_id,
}
use kafka_cad.Redis.{Codec, Redis}

pub data ObjError : Type 0 where
  obj_not_found : String → ObjError
  prost_decode_error bincode_error database_error : ObjError

pub data StatusCode : Type 0 where
  internal not_found : StatusCode

-- impl Into<tonic::Status> for ObjError
pub status_code : ObjError → StatusCode
status_code (obj_not_found _) = not_found
status_code prost_decode_error = internal
status_code bincode_error = internal
status_code database_error = internal

pub obj_cache : String → String → String
obj_cache file key = colon file key

pub file_offset : String → String
file_offset file = colon file "offset"

pub latest_obj_list : String → String
latest_obj_list file = colon file "obj_list"

pub record ObjEntry (Blob : Type 0) : Type 0 where
  pub offset : ℤ
  pub object : Blob

pub record GetObjectsInput : Type 0 where
  pub file : String
  pub obj_ids : List ObjectAtOffset

-- What the service takes from outside: the server, and the codecs of what it stores.
pub record Services (Blob : Type 0) ⦃e : Eq Blob⦄ : Type 1 where
  pub redis : Redis Blob
  pub open redis use *
  pub entries : Codec Blob (ObjEntry Blob)
  pub changes : Codec Blob ChangeMsg
  pub texts : Codec Blob String
  pub numbers : Codec Blob ℤ

module _ {Blob : Type 0} ⦃e : Eq Blob⦄ (s : Services Blob) where
  pub store_object_change : String → ℤ → String → Blob → Exec s.Db ObjError (Unit {0})
  store_object_change file offset key obj =
      modifies
        (s.lpush (obj_cache file key) (s.entries.encode (record { offset = offset; object = obj })))

  pub store_file_offset : String → ℤ → Exec s.Db ObjError (Unit {0})
  store_file_offset file offset = modifies (s.put (file_offset file) (s.numbers.encode offset))

  pub update_latest_obj_list : String → ChangeMsg → Exec s.Db ObjError (Unit {0})
  update_latest_obj_list file obj = elim obj.change_type [
    | some t ↦ elim t [
      | add object ↦ modifies (s.sadd (latest_obj_list file) (s.texts.encode object.id))
      | delete msg ↦ modifies (s.srem (latest_obj_list file) (s.texts.encode msg.id))
      | modify _ ↦ pure tt
    ]
    | none ↦ pure tt
  ]

  -- The loop of get_object, over the indices from `i` on.
  pub get_object_from : ℕ → ℕ → ℤ → String → String → s.Db → Result ObjError Blob
  get_object_from zero i offset cache key db = err (obj_not_found key)
  get_object_from (suc left) i offset cache key db = elim (s.lindex db cache i) [
    | none ↦ err database_error
    | some serialized ↦ elim (s.entries.decode serialized) [
      | none ↦ err bincode_error
      | some entry ↦
          let rest = get_object_from left (suc i) offset cache key db in
          if leb_ℤ entry.offset offset then ok entry.object else rest
    ]
  ]

  pub get_object : String → ℤ → String → s.Db → Result ObjError Blob
  get_object file offset key db = elim (s.llen db (obj_cache file key)) [
    | zero ↦ err (obj_not_found key)
    | suc left ↦ get_object_from (suc left) 0 offset (obj_cache file key) key db
  ]

  pub update_decoded : String → ℤ → Blob → ChangeMsg → Exec s.Db ObjError (Unit {0})
  unfolding store_object_change store_file_offset update_latest_obj_list
  update_decoded file offset input object = elim object.change_type [
    | none ↦ fail (obj_not_found "No change type specified")
    | some t ↦ do
      store_object_change file offset (type_id t) input
      store_file_offset file offset
      update_latest_obj_list file object
  ]

  pub update_object_cache : String → ℤ → Blob → Exec s.Db ObjError (Unit {0})
  unfolding update_decoded
  update_object_cache file offset input = elim (s.changes.decode input) [
    | none ↦ fail prost_decode_error
    | some object ↦ update_decoded file offset input object
  ]

  -- One round of the loop of get_objects: a missing object is an empty answer, other errors stop.
  answer : Result ObjError Blob → Result ObjError OptionChangeMsg
  answer (ok bytes) = elim (s.changes.decode bytes) [
    | none ↦ err prost_decode_error
    | some change ↦ ok (record { change = some change })
  ]
  answer (err (obj_not_found _)) = ok (record { change = none })
  answer (err prost_decode_error) = err prost_decode_error
  answer (err bincode_error) = err bincode_error
  answer (err database_error) = err database_error

  collect :
      Result ObjError OptionChangeMsg
      → Result ObjError (List OptionChangeMsg)
      → Result ObjError (List OptionChangeMsg)
  collect (err e) rest = err e
  collect (ok current) (err e) = err e
  collect (ok current) (ok results) = ok (current ∷ results)

  get_objects_for : String → List ObjectAtOffset → s.Db → Result ObjError (List OptionChangeMsg)
  unfolding answer collect
  get_objects_for file [] db = ok []
  get_objects_for file (entry ∷ ids) db =
      collect (answer (get_object file entry.offset entry.obj_id db)) (get_objects_for file ids db)

  pub get_objects : GetObjectsInput → s.Db → Result ObjError (List OptionChangeMsg)
  unfolding get_objects_for
  get_objects input db = get_objects_for input.file input.obj_ids db

  -- A missing or malformed number is an error of the client library.
  pub get_latest_offset : String → s.Db → Result ObjError ℤ
  get_latest_offset file db = elim (s.get db (file_offset file)) [
    | none ↦ err database_error
    | some value ↦ elim (s.numbers.decode value) [
      | none ↦ err database_error
      | some offset ↦ ok offset
    ]
  ]

  -- The members of the set as texts; one that is not a text is an error of the client library.
  pub read_texts : List Blob → Option (List String)
  read_texts [] = some []
  read_texts (b ∷ bs) = elim (s.texts.decode b) [
    | none ↦ none
    | some id ↦ elim (read_texts bs) [ none ↦ none | some ids ↦ some (id ∷ ids) ]
  ]

  pub yield_ids : List String → List (Result ObjError String)
  yield_ids [] = []
  yield_ids (id ∷ ids) = ok id ∷ yield_ids ids

  -- What the stream has, in order. An error ends it.
  pub get_latest_obj_list : String → s.Db → List (Result ObjError String)
  get_latest_obj_list file db = elim (read_texts (s.smembers db (latest_obj_list file))) [
    | none ↦ err database_error ∷ []
    | some ids ↦ yield_ids ids
  ]
