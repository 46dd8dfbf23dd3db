-- ===== src/Submit/Closed.antt =====
-- What update_changes of submit/src/update.rs sends to the operations service.
use kafka_cad.Prelude.{
  String, ◌≡◌, refl, ap, ◌∙◌, sym, subst, Bool, true, false, ◌&&◌, Option, none, some, List, [],
  ◌∷◌, ◌++◌, Eq, string_eq, ==_refl, Eq-cases, Bool-cases, inl, inr, arith,
}
use kafka_cad.Prelude.Int.{ℤ}
use kafka_cad.Prelude.Result.{ok, map_err}
use kafka_cad.State.{
  RefIdMsg, ReferenceMsg, ChangeType, ChangeSource, add, modify, delete, ChangeMsg,
}
use kafka_cad.Redis.{contains}
use kafka_cad.Objects.{Services, ObjError, GetObjectsInput, obj_cache, get_objects}
use kafka_cad.Objects.Keys.{IsPlainId}
use kafka_cad.Objects.History.{Commit, IsPlainLog, changes_object, latest, consume}
use kafka_cad.Maps.{IndexMap, IndexMaps, put_entry, lookup, has_key, entry_values}
use kafka_cad.Submit.{
  extract_type, extract_from, extract_info, Clients, get_obj_ids_to_fetch, get_all_dependencies,
  update, update_changes,
}
use kafka_cad.Submit.Sets.{last_change, lookup-extract_info, is_end, contains-get_obj_ids_to_fetch}
use kafka_cad.Submit.Fetched.{
  versions, get_objects_to_update-consume, has_change, has_change-append, has_change-versions,
}

-- The key of an entry is the id of its change's object.
abbrev pub IsKeyed : IndexMap ChangeMsg → Type 0
IsKeyed [] = Unit {0}
IsKeyed ((k, v) ∷ m) = (changes_object k v ≡ true) × IsKeyed m

put_entry-IsKeyed :
    (k : String) (v : ChangeMsg) (m : IndexMap ChangeMsg)
    → changes_object k v ≡ true
    → IsKeyed m
    → IsKeyed (put_entry k v m)
put_entry-IsKeyed k v [] h hs = (h, tt)
put_entry-IsKeyed k v ((key, w) ∷ m) h (h', hs) = elim (Eq-cases key k) [
  | inl (t, p) ↦ rw t (subst (λ j. changes_object j v ≡ true) (sym p) h, hs)
  | inr (t, _) ↦ rw t (h', put_entry-IsKeyed k v m h hs)
]

extract_type-IsKeyed :
    (maps : IndexMaps ChangeMsg) (t : ChangeType) (user : String) (source : Option ChangeSource)
    (ref_ids : List RefIdMsg) (objects : IndexMap ChangeMsg)
    → IsKeyed objects
    → IsKeyed
        (extract_type maps t
          (record { user = user; change_type = some t; change_source = source })
          (ref_ids, objects)).1
unfolding extract_type
extract_type-IsKeyed maps (add object) user source ref_ids objects h =
    rw (maps.insert_order object.id _ objects)
      (put_entry-IsKeyed object.id _ objects (==_refl object.id) h)
extract_type-IsKeyed maps (modify object) user source ref_ids objects h =
    rw (maps.insert_order object.id _ objects)
      (put_entry-IsKeyed object.id _ objects (==_refl object.id) h)
extract_type-IsKeyed maps (delete msg) user source ref_ids objects h =
    rw (maps.insert_order msg.id _ objects) (put_entry-IsKeyed msg.id _ objects (==_refl msg.id) h)

extract_step-IsKeyed :
    (maps : IndexMaps ChangeMsg) (user : String) (o : Option ChangeType)
    (source : Option ChangeSource) (changes : List ChangeMsg) (ref_ids : List RefIdMsg)
    (objects : IndexMap ChangeMsg)
    → ((found : List RefIdMsg × IndexMap ChangeMsg)
        → IsKeyed found.1
        → IsKeyed (extract_from maps changes found).1)
    → IsKeyed objects
    → IsKeyed
        (extract_from maps
          (record { user = user; change_type = o; change_source = source } ∷ changes)
          (ref_ids, objects)).1
unfolding extract_from
extract_step-IsKeyed maps user none source changes ref_ids objects rest h =
    rest (ref_ids, objects) h
extract_step-IsKeyed maps user (some t) source changes ref_ids objects rest h =
    rest _ (extract_type-IsKeyed maps t user source ref_ids objects h)

extract_from-IsKeyed :
    (maps : IndexMaps ChangeMsg) (changes : List ChangeMsg)
    (found : List RefIdMsg × IndexMap ChangeMsg)
    → IsKeyed found.1
    → IsKeyed (extract_from maps changes found).1
unfolding extract_from
extract_from-IsKeyed maps [] found h = h
extract_from-IsKeyed maps (change ∷ changes) (ref_ids, objects) h =
    extract_step-IsKeyed maps change.user change.change_type change.change_source changes ref_ids
      objects (extract_from-IsKeyed maps changes) h

has_change-entry_values :
    (id : String) (m : IndexMap ChangeMsg)
    → IsKeyed m
    → has_key m id ≡ true
    → has_change id (entry_values m) ≡ true
has_change-entry_values id [] h k = cc k
has_change-entry_values id ((key, v) ∷ m) (h, hs) k = elim (Eq-cases key id) [
  | inl (t, p) ↦ let here = subst (λ j. changes_object j v ≡ true) p h in ground (arith, here)
  | inr (t, _) ↦
      let rest = has_change-entry_values id m hs (rw (t, has_key) at k) in ground (arith, rest)
]

has_change-values :
    (maps : IndexMaps ChangeMsg) (id : String) (m : IndexMap ChangeMsg)
    → IsKeyed m
    → maps.contains_key m id ≡ true
    → has_change id (maps.values m) ≡ true
has_change-values maps id m h k =
    rw (maps.values_order m)
      (has_change-entry_values id m h (sym (maps.contains_key_entry m id) ∙ k))

left : (a b : Bool) → a && b ≡ true → a ≡ true
left a b p = ground arith

-- The end of update_changes, for any map of changes.
module _ {Blob Status : Type 0} ⦃e : Eq Blob⦄ (s : Services Blob) (clients : Clients Status)
    (to_status : ObjError → Status) (log : List Commit) (kept : s.Db) (file : String) (offset : ℤ)
    (user : String)
    (serves : (input : GetObjectsInput)
      → clients.get_objects input ≡ map_err to_status (get_objects s input (consume s log kept)))
    (plain : IsPlainLog log) (empty : (id : String) → s.lrange kept (obj_cache file id) ≡ []) where
  -- What is sent: the references, and changes of all the objects concerned.
  pub record IsClosed (changes : List ChangeMsg) (refers : List ReferenceMsg)
      (sent : List ChangeMsg) : Type 0 where
    pub submitted :
        (id : String) (change : ChangeMsg)
        → last_change id changes none ≡ some change
        → has_change id sent ≡ true
    pub concerned :
        (id : String) (change : ChangeMsg)
        → is_end id refers ≡ true
        → latest offset file id log ≡ some change
        → has_change id sent ≡ true

  sent-IsClosed :
      (changes : List ChangeMsg) (refers : List ReferenceMsg) (objects : IndexMap ChangeMsg)
      → IsKeyed objects
      → ((id : String) → lookup id objects ≡ last_change id changes none)
      → IsClosed changes refers (
          clients.index_map.values objects
          ++ versions file offset user log (get_obj_ids_to_fetch clients refers objects))
  sent-IsClosed changes refers objects h last = record {
    submitted = submitted;
    concerned = concerned;
  }
    where
      fetched : List ChangeMsg
      fetched = versions file offset user log (get_obj_ids_to_fetch clients refers objects)

      submitted :
          (id : String) (change : ChangeMsg)
          → last_change id changes none ≡ some change
          → has_change id (clients.index_map.values objects ++ fetched) ≡ true
      submitted id change p =
          let here = has_change-values clients.index_map id objects h (
            clients.index_map.contains_key_entry objects id
            ∙ ap (λ o. elim o [ none ↦ false | some _ ↦ true ]) (last id ∙ p)) in
          has_change-append id (clients.index_map.values objects) fetched ∙ rw here refl

      concerned :
          (id : String) (change : ChangeMsg)
          → is_end id refers ≡ true
          → latest offset file id log ≡ some change
          → has_change id (clients.index_map.values objects ++ fetched) ≡ true
      concerned id change p q =
          has_change-append id (clients.index_map.values objects) fetched
          ∙ elim (Bool-cases (clients.index_map.contains_key objects id)) [
            | inl t ↦ let here = has_change-values clients.index_map id objects h t in rw here refl
            | inr t ↦
                let asked =
                  contains-get_obj_ids_to_fetch clients refers objects id ∙ rw (p, t) refl in
                let here = has_change-versions file offset user log _ id change asked q in
                ground (arith, here)
          ]

  -- With the object service after a log of plain ids into an empty cache of the file, where the
  -- dependency service answers references whose objects have plain ids: update_changes is the
  -- operations service's answer to these references with a list of changes that has one of every
  -- object that the submission changes, and one of every object at an end of a reference that the
  -- log has at the offset.
  pub update_changes-IsClosed :
      (changes : List ChangeMsg) (refers : List ReferenceMsg)
      → get_all_dependencies clients file offset (extract_info clients.index_map changes).0
        ≡ ok refers
      → ((id : String) → is_end id refers ≡ true → IsPlainId id)
      → (sent : List ChangeMsg) × (update_changes clients file user offset changes
          ≡ clients.update_objects refers sent)
        × IsClosed changes refers sent
  unfolding update_changes update extract_info
  update_changes-IsClosed changes refers answered ids =
      let objects : IndexMap ChangeMsg = (extract_info clients.index_map changes).1 in
      (
        _,
        rw
            (
              answered,
              get_objects_to_update-consume s clients to_status log kept file offset user
                  (get_obj_ids_to_fetch clients refers objects) serves plain fetchable empty,
              update_changes,
            )
            refl,
        sent-IsClosed changes refers objects keyed
            (λ id. lookup-extract_info clients.index_map id changes),
      )
    where
      keyed : IsKeyed (extract_info clients.index_map changes).1
      keyed = extract_from-IsKeyed clients.index_map changes ([], []) tt

      fetchable :
          (id : String)
          → contains
              (get_obj_ids_to_fetch clients refers (extract_info clients.index_map changes).1)
              id
            ≡ true
          → IsPlainId id
      fetchable id m = ids id (
          left _ _ (
            sym (
              contains-get_obj_ids_to_fetch clients refers
                (extract_info clients.index_map changes).1 id)
            ∙ m))
