-- ===== src/Objects/Requests.antt =====
-- get_objects, over a cache that has consumed a log.
use kafka_cad.Prelude.{String, ◌≡◌, refl, Option, none, some, List, [], ◌∷◌, map, Eq}
use kafka_cad.Prelude.Result.{ok}
use kafka_cad.State.{ChangeMsg, OptionChangeMsg, ObjectAtOffset}
use kafka_cad.Objects.{
  GetObjectsInput, Services, obj_cache, answer, collect, get_objects_for, get_objects,
}
use kafka_cad.Objects.Keys.{IsPlainId}
use kafka_cad.Objects.History.{Commit, IsPlainLog, latest, consume, found, get_object-consume}

-- The objects asked for have plain ids.
abbrev pub ArePlain : List ObjectAtOffset → Type 0
ArePlain [] = Unit {0}
ArePlain (entry ∷ ids) = IsPlainId entry.obj_id × ArePlain ids

-- What the log says of one request.
abbrev pub version_of : String → List Commit → ObjectAtOffset → OptionChangeMsg
version_of file log entry = record { change = latest entry.offset file entry.obj_id log }

module _ {Blob : Type 0} ⦃e : Eq Blob⦄ (s : Services Blob) where
  answer-found :
      (id : String) (o : Option ChangeMsg) → answer s (found s id o) ≡ ok (record { change = o })
  unfolding answer
  answer-found id none = refl
  answer-found id (some change) = rw (s.changes.decode-encode change, answer)

  get_objects_for-consume :
      (file : String) (log : List Commit) (ids : List ObjectAtOffset) (db : s.Db)
      → IsPlainLog log
      → ArePlain ids
      → ((id : String) → s.lrange db (obj_cache file id) ≡ [])
      → get_objects_for s file ids (consume s log db) ≡ ok (map (version_of file log) ids)
  unfolding get_objects_for collect
  get_objects_for-consume file log [] db h k empty = refl
  get_objects_for-consume file log (entry ∷ ids) db h (k, ks) empty = rw (
    get_object-consume s log entry.offset file entry.obj_id db h k (empty entry.obj_id),
    answer-found entry.obj_id (latest entry.offset file entry.obj_id log),
    get_objects_for-consume file log ids db h ks empty,
  )

-- After the service has consumed a log of plain ids into an empty cache of the file, get_objects
-- for plain ids succeeds, and answers every request in its place with the last commit of its object
-- whose offset is at most the one of the request, or with nothing where there is none.
pub get_objects-consume :
    {Blob : Type 0} ⦃e : Eq Blob⦄ (s : Services Blob) (input : GetObjectsInput) (log : List Commit)
    (db : s.Db)
    → IsPlainLog log
    → ArePlain input.obj_ids
    → ((id : String) → s.lrange db (obj_cache input.file id) ≡ [])
    → get_objects s input (consume s log db) ≡ ok (map (version_of input.file log) input.obj_ids)
unfolding get_objects
get_objects-consume s input log db h k empty =
    get_objects_for-consume s input.file log input.obj_ids db h k empty
