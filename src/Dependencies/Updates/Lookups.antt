-- ===== src/Dependencies/Updates/Lookups.antt =====
-- What the readers of dependencies/src/cache.rs find after a change, by the edits it asks for.
use kafka_cad.Prelude.{
  String, ◌≡◌, refl, map, length, replicate, ◌∷◌, sym, ap, ◌∙◌, Eq-cases, inl, inr, Option, none,
  some, List, [], Eq, string_eq, ◌==◌, if◌then◌else◌,
}
use kafka_cad.Prelude.Int.{ℤ}
use kafka_cad.Prelude.Result.{Result, ok}
use kafka_cad.State.{
  ReferenceMsg, OptionReferenceMsg, DependenciesMsg, ChangeType, ChangeSource, add, modify, delete,
  ChangeMsg, type_id, DeleteMsg,
}
use kafka_cad.Dependencies.{
  DepError, Services, DepChange, added, deleted, Changed, find, get_ref_diffs, with_change,
  obj_refs, ref_id_subscribers, get_ref_id_subs, store_obj_refs, get_obj_refs,
}
use kafka_cad.Dependencies.Refs.{RefId}
use kafka_cad.Dependencies.Updates.{
  cleared, populate_all, write_subs, finish, add_deps, modify_deps, delete_deps, update_type,
  update_deps_inner,
}
use kafka_cad.Dependencies.Updates.Newest.{newest, get_ref_id_subs-newest}
use kafka_cad.Dependencies.Updates.Pending.{pending, IsDistinct, populate_all-Gathers}
use kafka_cad.Dependencies.Updates.Writes.{
  obj_refs-beq, subscribers-ne-obj_refs, lrange-write_subs, get-write_subs, reading, newest-pushed,
}

-- What is stored of an object: the offset, and the references.
abbrev pub Stored : Type 0
Stored = Option (ℤ × DependenciesMsg)

-- The edits that a change asks for, in their order, by what is stored of its object.
abbrev pub edits_of : ChangeType → Stored → List (Option (ReferenceMsg × DepChange))
edits_of (add object) old = elim object.dependencies [
  | none ↦ []
  | some deps ↦ with_change added deps.references
]
edits_of (modify object) old = elim object.dependencies [
  | none ↦ []
  | some deps ↦ elim old [
    | none ↦ with_change added deps.references
    | some found ↦ get_ref_diffs deps.references found.1.references
  ]
]
edits_of (delete msg) old = elim old [
  | none ↦ []
  | some found ↦ with_change deleted found.1.references
]

-- As many places, none with a reference.
abbrev pub emptied : DependenciesMsg → DependenciesMsg
emptied deps = record {
  references = replicate (length deps.references) (record { reference = none });
}

cleared-emptied : (deps : DependenciesMsg) → cleared deps ≡ emptied deps
unfolding cleared
cleared-emptied deps = ap (λ refs. record { references = refs }) (all_none deps.references)
  where
    all_none :
        (refs : List OptionReferenceMsg)
        → map {B = OptionReferenceMsg} (λ _. record { reference = none }) refs
          ≡ replicate (length refs) (record { reference = none })
    all_none [] = refl
    all_none (refer ∷ refs) = ap (◌∷◌ (record { reference = none })) (all_none refs)

-- The references that a change stores, with its object, if it stores some.
abbrev pub stored_by : ChangeType → Stored → Option (String × DependenciesMsg)
stored_by (add object) old = elim object.dependencies [
  | none ↦ none
  | some deps ↦ some (object.id, deps)
]
stored_by (modify object) old = elim object.dependencies [
  | none ↦ none
  | some deps ↦ some (object.id, deps)
]
stored_by (delete msg) old = elim old [ none ↦ none | some found ↦ some (msg.id, emptied found.1) ]

abbrev pub stored_after : ℤ → Option (String × DependenciesMsg) → String → Stored → Stored
stored_after offset none id old = old
stored_after offset (some (obj_id, deps)) id old = if obj_id == id then some (offset, deps) else old

-- The handler succeeds; each reference reads at every offset what the edits make of its set from
-- the offset of the change on, and what it read before below that; each object's stored references
-- are those told.
module _ {Blob : Type 0} ⦃e : Eq Blob⦄ (s : Services Blob) (file : String) (offset : ℤ) (db : s.Db)
    (old : RefId → List RefId) (stored : String → Stored) where
  pub record Edited (run : Result DepError (Unit {0}) × s.Db)
      (diffs : List (Option (ReferenceMsg × DepChange))) (told : Option (String × DependenciesMsg))
      : Type 0 where
    pub succeeds : run.0 ≡ ok tt
    pub lookups :
        (r : RefId) (at : ℤ)
        → get_ref_id_subs s file r at run.1
          ≡ reading s file offset (pending diffs r (old r) none) at (get_ref_id_subs s file r at db)
    pub refs :
        (id : String) → get_obj_refs s file id run.1 ≡ ok (stored_after offset told id (stored id))

module _ {Blob : Type 0} ⦃e : Eq Blob⦄ (s : Services Blob) (file : String) (offset : ℤ) (db : s.Db)
    (old : RefId → List RefId) (stored : String → Stored)
    (reads : (r : RefId) → get_ref_id_subs s file r offset db ≡ ok (old r))
    (reads_refs : (id : String) → get_obj_refs s file id db ≡ ok (stored id)) where
  refs_written :
      (obj_id id : String) (deps : DependenciesMsg) (m : Changed)
      → get_obj_refs s file id
          (write_subs s file offset m (store_obj_refs s file obj_id deps offset db))
        ≡ ok (stored_after offset (some (obj_id, deps)) id (stored id))
  unfolding get_obj_refs store_obj_refs
  refs_written obj_id id deps m =
      rw
        (
          get-write_subs s file offset id m (store_obj_refs s file obj_id deps offset db),
          s.get-put db (obj_refs file obj_id) (obj_refs file id),
          obj_refs-beq file obj_id id,
          get_obj_refs,
          store_obj_refs,
        )
        (elim (Eq-cases obj_id id) [
          | inl (t, p) ↦ rw (
            t,
            s.obj_refs_codec.decode-encode
                (record { offset = offset; serialized_refs = s.deps.encode deps }),
            s.deps.decode-encode deps,
          )
          | inr (t, _) ↦ rw t (reads_refs id)
        ])

  lookups_written :
      (obj_id : String) (deps : DependenciesMsg) (m : Changed) (o : Option (List RefId)) (r : RefId)
      (at : ℤ)
      → IsDistinct m
      → find r m ≡ o
      → get_ref_id_subs s file r at
          (write_subs s file offset m (store_obj_refs s file obj_id deps offset db))
        ≡ reading s file offset o at (get_ref_id_subs s file r at db)
  unfolding store_obj_refs
  lookups_written obj_id deps m o r at h p =
      get_ref_id_subs-newest s file r at _
      ∙ ap (newest s at) (lrange-write_subs s file offset r m _ h)
      ∙ newest-pushed s file offset (find r m) at _
      ∙ ap
          (λ o. reading s file offset o at (
            newest s at (
              s.lrange (store_obj_refs s file obj_id deps offset db)
                (ref_id_subscribers s file r))))
          p
      ∙ ap (λ bs. reading s file offset o at (newest s at bs))
          (s.lrange-put db _ _ _ (λ q. subscribers-ne-obj_refs s file r obj_id (sym q)))
      ∙ ap (reading s file offset o at) (sym (get_ref_id_subs-newest s file r at db))

  finish-Edited :
      (obj_id : String) (deps : DependenciesMsg) (diffs : List (Option (ReferenceMsg × DepChange)))
      → Edited s file offset db old stored
          (finish s file obj_id deps offset (populate_all s file offset diffs [] db) db)
          diffs
          (some (obj_id, deps))
  unfolding finish
  finish-Edited obj_id deps diffs =
      let (m, all, h, told) = populate_all-Gathers s file offset db old reads diffs [] tt in
      rw (all, finish)
        (record {
          succeeds = refl;
          lookups = λ r at. lookups_written obj_id deps m _ r at h (told r);
          refs = λ id. refs_written obj_id id deps m;
        })

  unchanged : Edited s file offset db old stored (ok tt, db) [] none
  unchanged = record { succeeds = refl; lookups = λ r at. refl; refs = reads_refs }

  modify-Edited :
      (obj_id : String) (deps : DependenciesMsg) (o : Stored)
      → get_obj_refs s file obj_id db ≡ ok o
      → Edited s file offset db old stored
          (modify_deps s file obj_id deps offset db)
          (elim o [
            | none ↦ with_change added deps.references
            | some found ↦ get_ref_diffs deps.references found.1.references
          ])
          (some (obj_id, deps))
  unfolding modify_deps
  modify-Edited obj_id deps none p = rw (p, modify_deps) (finish-Edited obj_id deps _)
  modify-Edited obj_id deps (some found) p = rw (p, modify_deps) (finish-Edited obj_id deps _)

  delete-Edited :
      (msg : DeleteMsg) (o : Stored)
      → get_obj_refs s file msg.id db ≡ ok o
      → Edited s file offset db old stored
          (update_type s file offset (delete msg) db)
          (edits_of (delete msg) o)
          (stored_by (delete msg) o)
  unfolding update_type delete_deps
  delete-Edited msg none p = rw (p, update_type) unchanged
  delete-Edited msg (some found) p =
      rw (p, update_type, sym (cleared-emptied found.1)) (finish-Edited msg.id (cleared found.1) _)

  type-Edited :
      (t : ChangeType)
      → Edited s file offset db old stored
          (update_type s file offset t db)
          (edits_of t (stored (type_id t)))
          (stored_by t (stored (type_id t)))
  unfolding update_type add_deps
  type-Edited (add object) = go object.dependencies
    where
      go :
          (d : Option DependenciesMsg)
          → (let t =
                add (record { id = object.id; dependencies = d; obj_data = object.obj_data }) in
              Edited s file offset db old stored
                (update_type s file offset t db)
                (edits_of t (stored object.id))
                (stored_by t (stored object.id)))
      go none = unchanged
      go (some deps) = finish-Edited object.id deps _
  type-Edited (modify object) = go object.dependencies
    where
      go :
          (d : Option DependenciesMsg)
          → (let t =
                modify (record { id = object.id; dependencies = d; obj_data = object.obj_data }) in
              Edited s file offset db old stored
                (update_type s file offset t db)
                (edits_of t (stored object.id))
                (stored_by t (stored object.id)))
      go none = unchanged
      go (some deps) = modify-Edited object.id deps (stored object.id) (reads_refs object.id)
  type-Edited (delete msg) = delete-Edited msg (stored msg.id) (reads_refs msg.id)

  inner-Edited :
      (user : String) (o : Option ChangeType) (source : Option ChangeSource)
      → Edited s file offset db old stored
          (update_deps_inner s file offset
            (record { user = user; change_type = o; change_source = source })
            db)
          (elim o [ none ↦ [] | some t ↦ edits_of t (stored (type_id t)) ])
          (elim o [ none ↦ none | some t ↦ stored_by t (stored (type_id t)) ])
  unfolding update_deps_inner
  inner-Edited user none source = unchanged
  inner-Edited user (some t) source = type-Edited t

  pub update_deps_inner-Edited :
      (change : ChangeMsg)
      → Edited s file offset db old stored
          (update_deps_inner s file offset change db)
          (elim change.change_type [ none ↦ [] | some t ↦ edits_of t (stored (type_id t)) ])
          (elim change.change_type [ none ↦ none | some t ↦ stored_by t (stored (type_id t)) ])
  update_deps_inner-Edited change = inner-Edited change.user change.change_type change.change_source
