-- ===== src/Submit/Sets.antt =====
-- The map of changes and the set of ids that submit/src/update.rs builds.
use kafka_cad.Prelude.{
  String, ◌≡◌, refl, ap, ◌∙◌, sym, subst, Bool, true, false, not, ◌&&◌, ◌||◌, Option, none, some,
  List, [], ◌∷◌, string_eq, ◌==◌, Eq-cases, Bool-cases, inl, inr, arith, if◌then◌else◌,
}
use kafka_cad.State.{
  RefIdMsg, ReferenceMsg, ChangeType, ChangeSource, add, modify, delete, ChangeMsg, type_id,
}
use kafka_cad.Redis.{contains}
use kafka_cad.Maps.{IndexMap, IndexMaps, put_entry, lookup}
use kafka_cad.Submit.{
  extract_type, extract_from, extract_info, insert_id, add_missing, missing_ids, Clients,
  get_obj_ids_to_fetch,
}

-- The last change of the object that has a type, or the one given.
abbrev pub last_change : String → List ChangeMsg → Option ChangeMsg → Option ChangeMsg
last_change id [] given = given
last_change id (change ∷ changes) given = last_change id changes (elim change.change_type [
  | none ↦ given
  | some t ↦ if type_id t == id then some change else given
])

lookup-put_entry :
    (k j : String) (v : ChangeMsg) (m : IndexMap ChangeMsg)
    → lookup j (put_entry k v m) ≡ (if k == j then some v else lookup j m)
lookup-put_entry k j v [] = refl
lookup-put_entry k j v ((key, w) ∷ m) = elim (Eq-cases key k) [
  | inl (t, p) ↦ rw t (rw p (skip (k == j)))
  | inr (t, n) ↦ rw t (elim (Eq-cases key j) [
    | inl (u, q) ↦
        rw u (elim (Eq-cases k j) [ inl (_, p) ↦ absurd (n (q ∙ sym p)) | inr (v', _) ↦ rw v' ])
    | inr (u, _) ↦ rw u (lookup-put_entry k j v m)
  ])
]
  where
    skip :
        (b : Bool)
        → (if b then some v else lookup j m)
          ≡ (if b then some v else (if b then some w else lookup j m))
    skip true = refl
    skip false = refl

lookup-extract_type :
    (maps : IndexMaps ChangeMsg) (id : String) (t : ChangeType) (change : ChangeMsg)
    (ref_ids : List RefIdMsg) (objects : IndexMap ChangeMsg)
    → lookup id (extract_type maps t change (ref_ids, objects)).1
      ≡ (if type_id t == id then some change else lookup id objects)
unfolding extract_type
lookup-extract_type maps id (add object) change ref_ids objects =
    rw (maps.insert_order object.id change objects) (lookup-put_entry object.id id change objects)
lookup-extract_type maps id (modify object) change ref_ids objects =
    rw (maps.insert_order object.id change objects) (lookup-put_entry object.id id change objects)
lookup-extract_type maps id (delete msg) change ref_ids objects =
    rw (maps.insert_order msg.id change objects) (lookup-put_entry msg.id id change objects)

extract_step :
    (maps : IndexMaps ChangeMsg) (id user : String) (o : Option ChangeType)
    (source : Option ChangeSource) (changes : List ChangeMsg) (ref_ids : List RefIdMsg)
    (objects : IndexMap ChangeMsg)
    → ((found : List RefIdMsg × IndexMap ChangeMsg)
        → lookup id (extract_from maps changes found).1
          ≡ last_change id changes (lookup id found.1))
    → (let change : ChangeMsg = record { user = user; change_type = o; change_source = source } in
        lookup id (extract_from maps (change ∷ changes) (ref_ids, objects)).1
        ≡ last_change id (change ∷ changes) (lookup id objects))
unfolding extract_from
extract_step maps id user none source changes ref_ids objects rest = rest (ref_ids, objects)
extract_step maps id user (some t) source changes ref_ids objects rest =
    let change : ChangeMsg = record { user = user; change_type = some t; change_source = source } in
    rest (extract_type maps t change (ref_ids, objects))
    ∙ ap (last_change id changes) (lookup-extract_type maps id t change ref_ids objects)

lookup-extract_from :
    (maps : IndexMaps ChangeMsg) (id : String) (changes : List ChangeMsg)
    (found : List RefIdMsg × IndexMap ChangeMsg)
    → lookup id (extract_from maps changes found).1 ≡ last_change id changes (lookup id found.1)
unfolding extract_from
lookup-extract_from maps id [] found = refl
lookup-extract_from maps id (change ∷ changes) (ref_ids, objects) =
    extract_step maps id change.user change.change_type change.change_source changes ref_ids objects
      (lookup-extract_from maps id changes)

-- The map of extract_info has, for every id, the last change of the submission that is of that
-- object and has a type, and nothing where there is none.
pub lookup-extract_info :
    (maps : IndexMaps ChangeMsg) (id : String) (changes : List ChangeMsg)
    → lookup id (extract_info maps changes).1 ≡ last_change id changes none
unfolding extract_info
lookup-extract_info maps id changes = lookup-extract_from maps id changes ([], [])

-- Whether a reference has the object at an end.
abbrev pub is_at : String → Option RefIdMsg → Bool
is_at id none = false
is_at id (some end) = end.id == id

abbrev pub is_end : String → List ReferenceMsg → Bool
is_end id [] = false
is_end id (refer ∷ refers) = (is_at id refer.owner || is_at id refer.other) || is_end id refers

contains-insert_id :
    (a x : String) (set : List String) → contains (insert_id a set) x ≡ (a == x || contains set x)
contains-insert_id a x set = elim (Bool-cases (contains set a)) [
  | inr t ↦ rw t
  | inl t ↦ rw t (elim (Eq-cases a x) [
    | inl (u, p) ↦ rw u (subst (λ y. contains set y ≡ true) p t)
    | inr (u, _) ↦ rw u
  ])
]

contains-add_missing :
    (maps : IndexMaps ChangeMsg) (end : Option RefIdMsg) (objects : IndexMap ChangeMsg)
    (id : String) (set : List String)
    → contains (add_missing maps end objects set) id
      ≡ (contains set id || is_at id end && not (maps.contains_key objects id))
unfolding add_missing
contains-add_missing maps none objects id set = ground arith
contains-add_missing maps (some end) objects id set =
    elim (Bool-cases (maps.contains_key objects end.id)) [
      | inl t ↦
          rw (t, add_missing)
            (elim (Eq-cases end.id id) [
              | inl (u, p) ↦
                  rw (u, subst (λ y. maps.contains_key objects y ≡ true) p t) (ground arith)
              | inr (u, _) ↦ rw u (ground arith)
            ])
      | inr t ↦
          rw (t, add_missing)
            (contains-insert_id end.id id set ∙ elim (Eq-cases end.id id) [
              | inl (u, p) ↦
                  rw (u, subst (λ y. maps.contains_key objects y ≡ false) p t) (ground arith)
              | inr (u, _) ↦ rw u (ground arith)
            ])
    ]

contains-missing_ids :
    (maps : IndexMaps ChangeMsg) (refers : List ReferenceMsg) (objects : IndexMap ChangeMsg)
    (id : String) (set : List String)
    → contains (missing_ids maps refers objects set) id
      ≡ (contains set id || is_end id refers && not (maps.contains_key objects id))
unfolding missing_ids
contains-missing_ids maps [] objects id set = ground arith
contains-missing_ids maps (refer ∷ refers) objects id set =
    contains-missing_ids maps refers objects id _
    ∙ rw
        (
          contains-add_missing maps refer.other objects id
              (add_missing maps refer.owner objects set),
          contains-add_missing maps refer.owner objects id set,
        )
        (ground arith)

-- The ids to fetch are exactly those of the objects at an end of a reference that the submission
-- does not change.
pub contains-get_obj_ids_to_fetch :
    {Status : Type 0} (clients : Clients Status) (refers : List ReferenceMsg)
    (objects : IndexMap ChangeMsg) (id : String)
    → contains (get_obj_ids_to_fetch clients refers objects) id
      ≡ (is_end id refers && not (clients.index_map.contains_key objects id))
unfolding get_obj_ids_to_fetch
contains-get_obj_ids_to_fetch clients refers objects id =
    clients.contains-walk (missing_ids clients.index_map refers objects []) id
    ∙ contains-missing_ids clients.index_map refers objects id []
    ∙ ground arith
