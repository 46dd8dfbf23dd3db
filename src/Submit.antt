-- ===== src/Submit.antt =====
-- submit/src/update.rs: what a submission sends to the operations service. The clients of the other
-- services are functions, and so is the order in which a HashSet is walked.
pub mod Sets
pub mod Closed
pub mod Fetched
pub mod Produce
pub mod Server
use kafka_cad.Prelude.{
  String, ◌≡◌, Bool, true, false, Option, none, some, List, [], ◌∷◌, ◌++◌, map, Eq, string_eq, ◌==◌,
  if◌then◌else◌,
}
use kafka_cad.Prelude.Int.{ℤ}
use kafka_cad.Prelude.Result.{Result, ok, err, ◌>>=◌}
use kafka_cad.State.{
  RefIdMsg, ReferenceMsg, OptionReferenceMsg, DependenciesMsg, ChangeType, add, modify, delete,
  ChangeMsg, OptionChangeMsg, ObjectAtOffset,
}
use kafka_cad.Redis.{contains}
use kafka_cad.Objects.{GetObjectsInput}
use kafka_cad.Maps.{IndexMap, IndexMaps}

-- The owners of the references of a message, where they are there.
unfoldable pub push_owners : List OptionReferenceMsg → List RefIdMsg → List RefIdMsg
push_owners [] ref_ids = ref_ids
push_owners (opt_ref ∷ refs) ref_ids = elim opt_ref.reference [
  | none ↦ push_owners refs ref_ids
  | some refer ↦ elim refer.owner [
    | none ↦ push_owners refs ref_ids
    | some owner ↦ push_owners refs (ref_ids ++ owner ∷ [])
  ]
]

abbrev pub push_deps : Option DependenciesMsg → List RefIdMsg → List RefIdMsg
push_deps none ref_ids = ref_ids
push_deps (some deps) ref_ids = push_owners deps.references ref_ids

unfoldable pub extract_type :
    IndexMaps ChangeMsg
    → ChangeType
    → ChangeMsg
    → List RefIdMsg × IndexMap ChangeMsg
    → List RefIdMsg × IndexMap ChangeMsg
extract_type maps (add object) change (ref_ids, objects) =
    (push_deps object.dependencies ref_ids, maps.insert object.id change objects)
extract_type maps (modify object) change (ref_ids, objects) =
    (push_deps object.dependencies ref_ids, maps.insert object.id change objects)
extract_type maps (delete msg) change (ref_ids, objects) =
    (ref_ids, maps.insert msg.id change objects)

-- The loop of extract_info, on its two variables.
unfoldable pub extract_from :
    IndexMaps ChangeMsg
    → List ChangeMsg
    → List RefIdMsg × IndexMap ChangeMsg
    → List RefIdMsg × IndexMap ChangeMsg
extract_from maps [] found = found
extract_from maps (change ∷ changes) found = elim change.change_type [
  | none ↦ extract_from maps changes found
  | some change_type ↦ extract_from maps changes (extract_type maps change_type change found)
]

unfoldable pub extract_info :
    IndexMaps ChangeMsg → List ChangeMsg → List RefIdMsg × IndexMap ChangeMsg
extract_info maps changes = extract_from maps changes ([], [])

-- HashSet<String>: a list without repetitions, in no order.
abbrev pub insert_id : String → List String → List String
insert_id a set = if contains set a then set else a ∷ set

unfoldable pub add_missing :
    IndexMaps ChangeMsg → Option RefIdMsg → IndexMap ChangeMsg → List String → List String
add_missing maps none objects results = results
add_missing maps (some end) objects results =
    if maps.contains_key objects end.id then results else insert_id end.id results

unfoldable pub missing_ids :
    IndexMaps ChangeMsg → List ReferenceMsg → IndexMap ChangeMsg → List String → List String
missing_ids maps [] objects results = results
missing_ids maps (refer ∷ refers) objects results =
    missing_ids maps refers objects
      (add_missing maps refer.other objects (add_missing maps refer.owner objects results))

pub with_user : String → List OptionChangeMsg → List ChangeMsg
with_user user [] = []
with_user user (change_opt ∷ objects) = elim change_opt.change [
  | none ↦ with_user user objects
  | some change ↦ record change { user = user } ∷ with_user user objects
]

pub record Clients (Status : Type 0) : Type 0 where
  pub get_all_dependencies : String → ℤ → List RefIdMsg → Result Status (List ReferenceMsg)
  pub get_objects : GetObjectsInput → Result Status (List OptionChangeMsg)
  pub update_objects : List ReferenceMsg → List ChangeMsg → Result Status (List ChangeMsg)
  pub index_map : IndexMaps ChangeMsg
  pub walk : List String → List String
  pub contains-walk : (set : List String) (a : String) → contains (walk set) a ≡ contains set a

module _ {Status : Type 0} (clients : Clients Status) where
  unfoldable pub get_all_dependencies :
      String → ℤ → List RefIdMsg → Result Status (List ReferenceMsg)
  get_all_dependencies file offset [] = ok []
  get_all_dependencies file offset (id ∷ ids) = clients.get_all_dependencies file offset (id ∷ ids)

  unfoldable pub get_obj_ids_to_fetch : List ReferenceMsg → IndexMap ChangeMsg → List String
  get_obj_ids_to_fetch refers objects =
      clients.walk (missing_ids clients.index_map refers objects [])

  pub get_objects_to_update : String → ℤ → String → List String → Result Status (List ChangeMsg)
  get_objects_to_update file offset user [] = ok []
  get_objects_to_update file offset user (id ∷ ids) =
      clients.get_objects (record {
        file = file;
        obj_ids = map (λ obj_id. record { offset = offset; obj_id = obj_id }) (id ∷ ids);
      })
      >>= λ objects. ok (with_user user objects)

  unfoldable pub update : List ReferenceMsg → List ChangeMsg → Result Status (List ChangeMsg)
  update obj_refs objects = clients.update_objects obj_refs objects

  unfoldable pub update_changes :
      String → String → ℤ → List ChangeMsg → Result Status (List ChangeMsg)
  update_changes file user offset changes =
      let (ref_ids, objects) = extract_info clients.index_map changes in
      get_all_dependencies file offset ref_ids >>= λ refers.
      get_objects_to_update file offset user (get_obj_ids_to_fetch refers objects)
      >>= λ fetched_objs. update refers (clients.index_map.values objects ++ fetched_objs)
