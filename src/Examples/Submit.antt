-- ===== src/Examples/Submit.antt =====
-- The theorems on submissions at a door that is added to a wall of the log.
use kafka_cad.Prelude.{
  String, ◌≡◌, refl, true, not, ◌&&◌, none, some, List, [], ◌∷◌, get_elem?, string_eq, Eq-cases,
  inl, inr, subst,
}
use kafka_cad.Prelude.Int.{pos}
use kafka_cad.Prelude.Result.{ok, map_err}
use kafka_cad.State.{ReferenceMsg, ChangeMsg}
use kafka_cad.Redis.{contains}
use kafka_cad.Objects.{ObjError, get_objects}
use kafka_cad.Objects.Keys.{IsPlainId}
use kafka_cad.Objects.History.{consume}
use kafka_cad.Maps.{IndexMaps, put_entry, change_entry, lookup, has_key, entry_values}
use kafka_cad.Submit.{
  Clients, extract_info, extract_from, extract_type, push_owners, get_all_dependencies,
  get_obj_ids_to_fetch, get_objects_to_update, update_changes,
}
use kafka_cad.Submit.Sets
use kafka_cad.Submit.Sets.{last_change, is_end}
use kafka_cad.Submit.Fetched
use kafka_cad.Submit.Fetched.{versions}
use kafka_cad.Submit.Closed
use kafka_cad.Submit.Closed.{IsClosed}
use kafka_cad.Examples.Server.{empty}
use kafka_cad.Examples.Blobs.{blob_eq}
use kafka_cad.Examples.Objects.{services, log, log-IsPlainLog, wall-IsPlainId, door-IsPlainId}
use kafka_cad.Examples.Dependencies.{door, wall, door_added}

abbrev pub on_wall : List ReferenceMsg
on_wall = record { owner = some door; other = some wall } ∷ []

abbrev pub index_map : {V : Type 0} → IndexMaps V
index_map = record {
  insert = put_entry;
  contains_key = has_key;
  values = entry_values;
  insert_order = λ k v m. refl;
  contains_key_entry = λ m k. refl;
  values_order = λ m. refl;
  get = λ m k. lookup k m;
  get_index = λ m i. get_elem? m i;
  get_mut = λ m k f. change_entry k f m;
  get_entry = λ m k. refl;
  get_index_order = λ m i. refl;
  get_mut_entry = λ m k f. refl;
}

-- The dependency service answers one reference, and the operations service what it gets.
abbrev pub clients : Clients ObjError
clients = record {
  get_all_dependencies = λ file offset ids. ok on_wall;
  get_objects =
      λ input. map_err (λ error. error) (get_objects services input (consume services log empty));
  update_objects = λ refers objects. ok objects;
  index_map = index_map;
  walk = λ set. set;
  contains-walk = λ set a. refl;
}

lookup-extract_info_example :
    lookup "door" (extract_info index_map (door_added ∷ [])).1
    ≡ last_change "door" (door_added ∷ []) none
lookup-extract_info_example = Sets.lookup-extract_info index_map "door" (door_added ∷ [])

contains-get_obj_ids_to_fetch_example :
    contains (get_obj_ids_to_fetch clients on_wall (("door", door_added) ∷ [])) "wall"
    ≡ (is_end "wall" on_wall && not (has_key (("door", door_added) ∷ []) "wall"))
contains-get_obj_ids_to_fetch_example =
    Sets.contains-get_obj_ids_to_fetch clients on_wall (("door", door_added) ∷ []) "wall"

pub only_wall : (id : String) → contains ("wall" ∷ []) id ≡ true → IsPlainId id
only_wall id m = elim (Eq-cases "wall" id) [
  | inl (_, p) ↦ subst IsPlainId p wall-IsPlainId
  | inr (t, _) ↦ let q = rw t at m in cc q
]

ends_plain : (id : String) → is_end id on_wall ≡ true → IsPlainId id
ends_plain id m = elim (Eq-cases "door" id) [
  | inl (_, p) ↦ subst IsPlainId p door-IsPlainId
  | inr (t, _) ↦ elim (Eq-cases "wall" id) [
    | inl (_, p) ↦ subst IsPlainId p wall-IsPlainId
    | inr (u, _) ↦ let q = rw (t, u) at m in cc q
  ]
]

get_objects_to_update-consume_example :
    get_objects_to_update clients "house" (pos 4) "bob" ("wall" ∷ [])
    ≡ ok (versions "house" (pos 4) "bob" log ("wall" ∷ []))
get_objects_to_update-consume_example =
    Fetched.get_objects_to_update-consume services clients (λ error. error) log empty "house"
      (pos 4) "bob" ("wall" ∷ []) (λ input. refl) log-IsPlainLog only_wall (λ _. refl)

pub answered :
    get_all_dependencies clients "house" (pos 4) (extract_info index_map (door_added ∷ [])).0
    ≡ ok on_wall
unfolding get_all_dependencies extract_info extract_from extract_type push_owners
answered = refl

update_changes-IsClosed_example :
    (sent : List ChangeMsg) × (update_changes clients "house" "bob" (pos 4) (door_added ∷ [])
      ≡ clients.update_objects on_wall sent)
    × IsClosed services clients
        (λ error. error)
        log
        empty
        "house"
        (pos 4)
        "bob"
        (λ input. refl)
        log-IsPlainLog
        (λ _. refl)
        (door_added ∷ [])
        on_wall
        sent
update_changes-IsClosed_example =
    Closed.update_changes-IsClosed services clients (λ error. error) log empty "house" (pos 4) "bob"
      (λ input. refl) log-IsPlainLog (λ _. refl) (door_added ∷ []) on_wall answered ends_plain
