-- ===== src/Dependencies.antt =====
-- dependencies/src/cache.rs: which references are subscribed to which, kept as a list of versions
-- for each reference, and the search for everything that depends on some references.
pub mod Refs
pub mod Sets
pub mod Updates
pub mod Search
pub mod Server
use kafka_cad.Prelude.{
  ℕ, zero, suc, String, ◌≡◌, Bool, true, false, not, Option, none, some, List, [], ◌∷◌, ◌++◌, map,
  Eq, ◌==◌, if◌then◌else◌,
}
use kafka_cad.Prelude.Int.{ℤ, leb_ℤ}
use kafka_cad.Prelude.Text.{colon}
use kafka_cad.Prelude.Result.{Result, ok, err, ◌>>=◌}
use kafka_cad.State.{
  RefIdMsg, ReferenceMsg, OptionReferenceMsg, DependenciesMsg, add, modify, delete, ChangeMsg,
}
use kafka_cad.Redis.{Codec, Redis, contains, remove_first}
use Sets.{IndexSet}
use Refs.{RefId, Reference, ref_id_eq, from_msg, to_msg, reference_msg}

pub data DepError : Type 0 where
  prost_encode_error prost_decode_error database_error bincode_error : DepError

pub data StatusCode : Type 0 where
  internal : StatusCode

-- impl Into<tonic::Status> for DepError
pub status_code : DepError → StatusCode
status_code prost_encode_error = internal
status_code prost_decode_error = internal
status_code database_error = internal
status_code bincode_error = internal

pub obj_refs : String → String → String
obj_refs file obj = colon file (colon obj "deps")

-- A set without its order: a list without repetitions.
pub record Subscribers : Type 0 where
  pub offset : ℤ
  pub subs : List RefId

pub record ObjRefs (Blob : Type 0) : Type 0 where
  pub offset : ℤ
  pub serialized_refs : Blob

pub data DepChange : Type 0 where
  added modified deleted : DepChange

-- HashSet::insert and HashSet::remove.
abbrev pub insert : RefId → List RefId → List RefId
insert a set = if contains set a then set else a ∷ set

abbrev pub remove : RefId → List RefId → List RefId
remove a [] = []
remove a (x ∷ set) = if x == a then remove a set else x ∷ remove a set

-- HashMap<RefId, HashSet<RefId>>: get, and insert where the key is there or not.
abbrev pub Changed : Type 0
Changed = List (RefId × List RefId)

abbrev pub find : RefId → Changed → Option (List RefId)
find k [] = none
find k ((key, v) ∷ m) = if key == k then some v else find k m

abbrev pub store : RefId → List RefId → Changed → Changed
store k v [] = (k, v) ∷ []
store k v ((key, w) ∷ m) = if key == k then (key, v) ∷ m else (key, w) ∷ store k v m

unfoldable pub change_of :
    Option ReferenceMsg → Option ReferenceMsg → Option (ReferenceMsg × DepChange)
change_of (some refer) (some _) = some (refer, modified)
change_of (some refer) none = some (refer, added)
change_of none (some old_refer) = some (old_refer, deleted)
change_of none none = none

-- The loop up to the longer length; a list that has ended gives None.
unfoldable pub get_ref_diffs :
    List OptionReferenceMsg → List OptionReferenceMsg → List (Option (ReferenceMsg × DepChange))
get_ref_diffs [] [] = []
get_ref_diffs (new ∷ new_refs) [] = change_of new.reference none ∷ get_ref_diffs new_refs []
get_ref_diffs [] (old ∷ old_refs) = change_of none old.reference ∷ get_ref_diffs [] old_refs
get_ref_diffs (new ∷ new_refs) (old ∷ old_refs) =
    change_of new.reference old.reference ∷ get_ref_diffs new_refs old_refs

-- The references of a message that are there, all with one change.
unfoldable pub with_change :
    DepChange → List OptionReferenceMsg → List (Option (ReferenceMsg × DepChange))
with_change t refs =
    map (λ opt. elim opt.reference [ none ↦ none | some refer ↦ some (refer, t) ]) refs

unfoldable pub edit : DepChange → RefId → List RefId → List RefId
edit added owner subs = insert owner subs
edit modified owner subs = insert owner subs
edit deleted owner subs = remove owner subs

-- What the service takes from outside: the server, the codecs of what it stores, the text that the
-- derived Debug prints for a RefId, and the order in which a HashSet is walked.
pub record Services (Blob : Type 0) ⦃e : Eq Blob⦄ : Type 1 where
  pub redis : Redis Blob
  pub open redis use *
  pub subscribers : Codec Blob Subscribers
  pub obj_refs_codec : Codec Blob (ObjRefs Blob)
  pub deps : Codec Blob DependenciesMsg
  pub changes : Codec Blob ChangeMsg
  pub texts : Codec Blob String
  pub index_set : IndexSet
  pub debug : RefId → String
  pub walk : List RefId → List RefId
  pub debug_injective : (a b : RefId) → debug a ≡ debug b → a ≡ b
  pub contains-walk : (set : List RefId) (a : RefId) → contains (walk set) a ≡ contains set a

module _ {Blob : Type 0} ⦃e : Eq Blob⦄ (s : Services Blob) where
  pub ref_id_subscribers : String → RefId → String
  ref_id_subscribers file ref_id = colon file (colon (s.debug ref_id) "subs")

  pub update_ref_id_subscribers : String → ℤ → RefId → List RefId → s.Db → s.Db
  update_ref_id_subscribers file offset ref_id subs db =
      s.lpush (ref_id_subscribers file ref_id)
        (s.subscribers.encode (record { offset = offset; subs = subs })) db

  -- The loop of get_ref_id_subs, over the indices from `i` on.
  pub get_subs_from : ℕ → ℕ → String → ℤ → s.Db → Result DepError (List RefId)
  get_subs_from zero i key before_or_equal db = ok []
  get_subs_from (suc left) i key before_or_equal db = elim (s.lindex db key i) [
    | none ↦ err database_error
    | some raw_bytes ↦ elim (s.subscribers.decode raw_bytes) [
      | none ↦ err bincode_error
      | some entry ↦
          let rest = get_subs_from left (suc i) key before_or_equal db in
          if leb_ℤ entry.offset before_or_equal then ok entry.subs else rest
    ]
  ]

  pub get_ref_id_subs : String → RefId → ℤ → s.Db → Result DepError (List RefId)
  get_ref_id_subs file ref_id before_or_equal db =
      let key = ref_id_subscribers file ref_id in
      get_subs_from (s.llen db key) 0 key before_or_equal db

  pub store_obj_refs : String → String → DependenciesMsg → ℤ → s.Db → s.Db
  store_obj_refs file obj_id refs offset db =
      s.put (obj_refs file obj_id)
        (s.obj_refs_codec.encode (record { offset = offset; serialized_refs = s.deps.encode refs }))
        db

  pub get_obj_refs : String → String → s.Db → Result DepError (Option (ℤ × DependenciesMsg))
  get_obj_refs file obj_id db = elim (s.get db (obj_refs file obj_id)) [
    | none ↦ ok none
    | some raw_bytes ↦ elim (s.obj_refs_codec.decode raw_bytes) [
      | none ↦ err bincode_error
      | some entry ↦ elim (s.deps.decode entry.serialized_refs) [
        | none ↦ err prost_decode_error
        | some deserialized ↦ ok (some (entry.offset, deserialized))
      ]
    ]
  ]
