-- ===== src/Examples/Dependencies.antt =====
-- The theorems on dependencies at a door that depends on a wall.
use kafka_cad.Prelude.{
  String, ◌≡◌, refl, ◌∙◌, map, none, some, List, [], ◌∷◌, ◌++◌, ◌==◌, Bool-cases, true, inl, inr,
  arith, if◌then◌else◌,
}
use kafka_cad.Prelude.Int.{ℤ, pos}
use kafka_cad.Prelude.Result.{ok}
use kafka_cad.State.{RefIdMsg, DependenciesMsg, add, modify, user_action, ChangeMsg}
use kafka_cad.Redis.{contains}
use kafka_cad.Dependencies.{Services, edit, with_change, get_ref_id_subs, get_obj_refs}
use kafka_cad.Dependencies.Refs.{RefId, Reference, ref_id_eq, reference_eq, from_msg, reference_msg}
use kafka_cad.Dependencies.Updates.{update_deps_inner}
use kafka_cad.Dependencies.Updates.Newest.{get_ref_id_subs-newest, get_obj_refs-none}
use kafka_cad.Dependencies.Updates.Lookups
use kafka_cad.Dependencies.Updates.Lookups.{Edited, Stored, edits_of, stored_by, stored_after}
use kafka_cad.Dependencies.Updates.Members
use kafka_cad.Dependencies.Updates.Members.{Updated}
use kafka_cad.Dependencies.Updates.Places.{places_of}
use kafka_cad.Dependencies.Search.{breadth_first_search, get_all_deps}
use kafka_cad.Dependencies.Search.Union
use kafka_cad.Dependencies.Search.Union.{IsUnion}
use kafka_cad.Dependencies.Search.Reaches
use kafka_cad.Dependencies.Search.Reaches.{IsSearch}
use kafka_cad.Dependencies.Server.{handle_stream}
use kafka_cad.Dependencies.Server.History
use kafka_cad.Dependencies.Server.History.{Represents, after_log, deliver}
use kafka_cad.Dependencies.Server.Searches
use kafka_cad.Dependencies.Server.Searches.{nothing, places, empty-Represents}
use kafka_cad.Examples.Server.{Memory, memory, empty}
use kafka_cad.Examples.Blobs.{Blob, blob_eq, texts, changes, subscribers, obj_refs_codec, deps}
use kafka_cad.Examples.Printing.{print, print_injective}

abbrev add_last : Reference → List Reference → List Reference
add_last refer set = if contains set refer then set else set ++ refer ∷ []

abbrev extend : List Reference → List Reference → List Reference
extend set [] = set
extend set (refer ∷ refers) = extend (add_last refer set) refers

abbrev services : Services Blob
services = record {
  redis = memory;
  subscribers = subscribers;
  obj_refs_codec = obj_refs_codec;
  deps = deps;
  changes = changes;
  texts = texts;
  index_set = record {
    add_last = add_last;
    extend = extend;
    add_last_order = λ refer set. refl;
    extend_none = λ set. refl;
    extend_some = λ set refer refers. refl;
  };
  debug = print;
  walk = λ set. set;
  debug_injective = print_injective;
  contains-walk = λ set a. refl;
}

abbrev pub door : RefIdMsg
door = record { id = "door"; ref_type = pos 1; index = 0 }

abbrev pub wall : RefIdMsg
wall = record { id = "wall"; ref_type = pos 2; index = 1 }

abbrev pub on_wall : DependenciesMsg
on_wall = record {
  references = record { reference = some (record { owner = some door; other = some wall }) } ∷ [];
}

abbrev pub door_added : ChangeMsg
door_added = record {
  user = "ann";
  change_type = some (add (record { id = "door"; dependencies = some on_wall; obj_data = [] }));
  change_source = some user_action;
}

abbrev no_subs : RefId → List RefId
no_subs r = []

abbrev no_refs : String → Stored
no_refs id = none

empty_reads : (at : ℤ) (r : RefId) → get_ref_id_subs services "house" r at empty ≡ ok (no_subs r)
empty_reads at r = get_ref_id_subs-newest services "house" r at empty

empty_refs : (id : String) → get_obj_refs services "house" id empty ≡ ok (no_refs id)
empty_refs id = get_obj_refs-none services "house" id empty refl

door_Edited :
    Edited services "house"
      (pos 3)
      empty
      no_subs
      no_refs
      (update_deps_inner services "house" (pos 3) door_added empty)
      (elim door_added.change_type [ none ↦ [] | some t ↦ edits_of t none ])
      (elim door_added.change_type [ none ↦ none | some t ↦ stored_by t none ])
door_Edited =
    Lookups.update_deps_inner-Edited services "house" (pos 3) empty no_subs no_refs
      (empty_reads (pos 3)) empty_refs door_added

abbrev with_door : Memory Blob
with_door = (update_deps_inner services "house" (pos 3) door_added empty).1

abbrev subs : RefId → List RefId
subs r = if from_msg wall == r then from_msg door ∷ [] else []

reads_door : (r : RefId) → get_ref_id_subs services "house" r (pos 4) with_door ≡ ok (subs r)
unfolding edit with_change
reads_door r = door_Edited.lookups r (pos 4) ∙ (elim (Bool-cases (from_msg wall == r)) [
  | inl t ↦ rw (t, edit, with_change) refl
  | inr t ↦ rw (t, edit, with_change) (empty_reads (pos 4) r)
])

-- The door then follows another wall.
abbrev other_wall : RefIdMsg
other_wall = record { id = "other wall"; ref_type = pos 2; index = 0 }

abbrev on_other : DependenciesMsg
on_other = record {
  references =
      record { reference = some (record { owner = some door; other = some other_wall }) } ∷ [];
}

abbrev door_moved : ChangeMsg
door_moved = record {
  user = "ann";
  change_type = some (modify (record { id = "door"; dependencies = some on_other; obj_data = [] }));
  change_source = some user_action;
}

abbrev refs : String → Stored
refs id = stored_after (pos 3) (some ("door", on_wall)) id none

update_deps_inner-Updated_example :
    Updated services "house"
      (pos 4)
      with_door
      subs
      refs
      (update_deps_inner services "house" (pos 4) door_moved with_door)
      (places_of door_moved.change_type refs)
      (elim door_moved.change_type [ none ↦ none | some t ↦ stored_by t (refs "door") ])
update_deps_inner-Updated_example =
    Members.update_deps_inner-Updated services "house" (pos 4) with_door subs refs reads_door
      (λ id. door_Edited.refs id) door_moved

bounded : (r x : RefId) → contains (subs r) x ≡ true → contains (from_msg door ∷ []) x ≡ true
bounded r x h = elim (Bool-cases (from_msg wall == r)) [
  | inl t ↦ rw t at h
  | inr t ↦ let q = rw t at h in cc q
]

breadth_first_search-IsSearch_example :
    (found : List Reference) × (breadth_first_search services 2 "house"
        (pos 4)
        (from_msg wall)
        with_door
      ≡ some (ok found))
    × IsSearch subs (from_msg wall) found
breadth_first_search-IsSearch_example =
    Reaches.breadth_first_search-IsSearch services "house" (pos 4) with_door subs
      (from_msg door ∷ []) reads_door bounded 2 (from_msg wall) (omega arith)

abbrev log : List (ℤ × ChangeMsg)
log = (pos 3, door_added) ∷ []

handle_stream-Represents_example :
    Represents services "house"
      (handle_stream services (map (deliver services "house") log) empty)
      (after_log log nothing)
handle_stream-Represents_example =
    History.handle_stream-Represents services "house" log empty nothing
      (empty-Represents services "house" empty (λ _. refl) (λ _. refl))

breadth_first_search-log_example :
    (found : List Reference) × (breadth_first_search services 2 "house"
        (pos 4)
        (from_msg wall)
        (handle_stream services (map (deliver services "house") log) empty)
      ≡ some (ok found))
    × IsSearch (λ r. (after_log log nothing).subs r (pos 4)) (from_msg wall) found
unfolding with_change
breadth_first_search-log_example =
    Searches.breadth_first_search-log services "house" log empty 2 (pos 4) (from_msg wall)
      (λ _. refl) (λ _. refl) (omega arith)

get_all_deps-IsUnion_example :
    (result : List Reference) × (get_all_deps services 2 "house"
        (pos 4)
        (wall ∷ door ∷ [])
        with_door
      ≡ some (ok (map reference_msg result)))
    × IsUnion subs (wall ∷ door ∷ []) result
get_all_deps-IsUnion_example =
    Union.get_all_deps-IsUnion services "house" (pos 4) with_door subs (from_msg door ∷ [])
      reads_door bounded 2 (omega arith) (wall ∷ door ∷ [])
