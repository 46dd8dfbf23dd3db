-- ===== src/Dependencies/Updates/Places.antt =====
-- What a change asks of the subscribers in dependencies/src/cache.rs, place by place of the object's
-- references.
use kafka_cad.Prelude.{
  String, ◌≡◌, refl, ap, ap₂, Option, none, some, List, [], ◌∷◌, map, string_eq, nat_eq, int_eq,
}
use kafka_cad.State.{
  ReferenceMsg, OptionReferenceMsg, DependenciesMsg, ChangeType, add, modify, delete, type_id,
}
use kafka_cad.Dependencies.{DepChange, added, deleted, change_of, get_ref_diffs, with_change}
use kafka_cad.Dependencies.Refs.{ref_id_eq}
use kafka_cad.Dependencies.Updates.Lookups.{Stored, edits_of}

-- A place of an object's references: what the change has there, and what was stored there.
abbrev pub Place : Type 0
Place = Option ReferenceMsg × Option ReferenceMsg

-- Up to the longer length.
abbrev pub places : List OptionReferenceMsg → List OptionReferenceMsg → List Place
places [] [] = []
places (new ∷ news) [] = (new.reference, none) ∷ places news []
places [] (old ∷ olds) = (none, old.reference) ∷ places [] olds
places (new ∷ news) (old ∷ olds) = (new.reference, old.reference) ∷ places news olds

-- The places that a change looks at. Of an object that is added it does not look at what is stored.
abbrev pub places_of : Option ChangeType → (String → Stored) → List Place
places_of none stored = []
places_of (some (add object)) stored = elim object.dependencies [
  | none ↦ []
  | some deps ↦ places deps.references []
]
places_of (some (modify object)) stored = elim object.dependencies [
  | none ↦ []
  | some deps ↦
      places deps.references
        (elim (stored object.id) [ none ↦ [] | some found ↦ found.1.references ])
]
places_of (some (delete msg)) stored = elim (stored msg.id) [
  | none ↦ []
  | some found ↦ places [] found.1.references
]

abbrev pub change_at : Place → Option (ReferenceMsg × DepChange)
change_at p = change_of p.0 p.1

get_ref_diffs-places :
    (news olds : List OptionReferenceMsg)
    → get_ref_diffs news olds ≡ map change_at (places news olds)
unfolding get_ref_diffs
get_ref_diffs-places [] [] = refl
get_ref_diffs-places (new ∷ news) [] =
    ap (◌∷◌ (change_at (new.reference, none))) (get_ref_diffs-places news [])
get_ref_diffs-places [] (old ∷ olds) =
    ap (◌∷◌ (change_at (none, old.reference))) (get_ref_diffs-places [] olds)
get_ref_diffs-places (new ∷ news) (old ∷ olds) =
    ap (◌∷◌ (change_at (new.reference, old.reference))) (get_ref_diffs-places news olds)

added_at :
    (opt : Option ReferenceMsg)
    → (elim opt [ none ↦ none | some refer ↦ some (refer, added) ]) ≡ change_of opt none
unfolding change_of
added_at none = refl
added_at (some refer) = refl

deleted_at :
    (opt : Option ReferenceMsg)
    → (elim opt [ none ↦ none | some refer ↦ some (refer, deleted) ]) ≡ change_of none opt
unfolding change_of
deleted_at none = refl
deleted_at (some refer) = refl

with_change-added :
    (refs : List OptionReferenceMsg) → with_change added refs ≡ map change_at (places refs [])
unfolding with_change
with_change-added [] = refl
with_change-added (r ∷ refs) = ap₂ ◌∷◌ (added_at r.reference) (with_change-added refs)

with_change-deleted :
    (refs : List OptionReferenceMsg) → with_change deleted refs ≡ map change_at (places [] refs)
unfolding with_change
with_change-deleted [] = refl
with_change-deleted (r ∷ refs) = ap₂ ◌∷◌ (deleted_at r.reference) (with_change-deleted refs)

add_places :
    (d : Option DependenciesMsg)
    → (elim d [ none ↦ [] | some deps ↦ with_change added deps.references ])
      ≡ map change_at (elim d [ none ↦ [] | some deps ↦ places deps.references [] ])
add_places none = refl
add_places (some deps) = with_change-added deps.references

modify_places :
    (d : Option DependenciesMsg) (old : Stored)
    → (elim d [
      | none ↦ []
      | some deps ↦ elim old [
        | none ↦ with_change added deps.references
        | some found ↦ get_ref_diffs deps.references found.1.references
      ]
    ])
      ≡ map change_at (elim d [
        | none ↦ []
        | some deps ↦
            places deps.references (elim old [ none ↦ [] | some found ↦ found.1.references ])
      ])
modify_places none old = refl
modify_places (some deps) none = with_change-added deps.references
modify_places (some deps) (some found) = get_ref_diffs-places deps.references found.1.references

delete_places :
    (old : Stored)
    → (elim old [ none ↦ [] | some found ↦ with_change deleted found.1.references ])
      ≡ map change_at (elim old [ none ↦ [] | some found ↦ places [] found.1.references ])
delete_places none = refl
delete_places (some found) = with_change-deleted found.1.references

pub edits_of-places :
    (o : Option ChangeType) (stored : String → Stored)
    → (elim o [ none ↦ [] | some t ↦ edits_of t (stored (type_id t)) ])
      ≡ map change_at (places_of o stored)
edits_of-places none stored = refl
edits_of-places (some (add object)) stored = add_places object.dependencies
edits_of-places (some (modify object)) stored = modify_places object.dependencies (stored object.id)
edits_of-places (some (delete msg)) stored = delete_places (stored msg.id)
