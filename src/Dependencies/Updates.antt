-- ===== src/Dependencies/Updates.antt =====
-- The handlers of dependencies/src/cache.rs that store the references of a change.
pub mod Newest
pub mod Pending
pub mod Writes
pub mod Lookups
pub mod Places
pub mod Edits
pub mod Members
use kafka_cad.Prelude.{String, Option, none, some, List, [], ◌∷◌, map, Eq}
use kafka_cad.Prelude.Int.{ℤ}
use kafka_cad.Prelude.Result.{Result, ok, err}
use kafka_cad.Prelude.Exec.{Exec}
use kafka_cad.State.{
  ReferenceMsg, OptionReferenceMsg, DependenciesMsg, ChangeType, add, modify, delete, ChangeMsg,
}
use kafka_cad.Dependencies.{
  DepError, prost_decode_error, Services, DepChange, added, modified, deleted, Changed, find, store,
  edit, get_ref_diffs, with_change, get_ref_id_subs, update_ref_id_subscribers, store_obj_refs,
  get_obj_refs,
}
use kafka_cad.Dependencies.Refs.{RefId, from_msg}

-- The message with as many references, all of them None.
unfoldable pub cleared : DependenciesMsg → DependenciesMsg
cleared deps = record { references = map (λ _. record { reference = none }) deps.references }

module _ {Blob : Type 0} ⦃e : Eq Blob⦄ (s : Services Blob) where
  -- populate_changed_subs for a reference with both ends.
  pub populate_ends :
      String → ℤ → RefId → RefId → DepChange → Changed → s.Db → Result DepError Changed
  populate_ends file offset ref_owner ref_other change_type changed_subs db =
      elim (find ref_other changed_subs) [
        | some subs ↦ ok (store ref_other (edit change_type ref_owner subs) changed_subs)
        | none ↦ elim (get_ref_id_subs s file ref_other offset db) [
          | err e ↦ err e
          | ok subs ↦ ok (store ref_other (edit change_type ref_owner subs) changed_subs)
        ]
      ]

  pub populate_changed_subs :
      String → ℤ → ReferenceMsg → DepChange → Changed → s.Db → Result DepError Changed
  populate_changed_subs file offset refer change_type changed_subs db = elim refer.owner [
    | none ↦ ok changed_subs
    | some ref_owner ↦ elim refer.other [
      | none ↦ ok changed_subs
      | some ref_other ↦
          populate_ends file offset (from_msg ref_owner) (from_msg ref_other) change_type
            changed_subs db
    ]
  ]

  -- The loops that call it.
  pub populate_all :
      String
      → ℤ
      → List (Option (ReferenceMsg × DepChange))
      → Changed
      → s.Db
      → Result DepError Changed
  populate_all file offset [] changed_subs db = ok changed_subs
  populate_all file offset (none ∷ diffs) changed_subs db =
      populate_all file offset diffs changed_subs db
  populate_all file offset (some (refer, change_type) ∷ diffs) changed_subs db =
      elim (populate_changed_subs file offset refer change_type changed_subs db) [
        | err e ↦ err e
        | ok changed ↦ populate_all file offset diffs changed db
      ]

  pub write_subs : String → ℤ → Changed → s.Db → s.Db
  write_subs file offset [] db = db
  write_subs file offset ((ref_id, subs) ∷ changed_subs) db =
      write_subs file offset changed_subs (update_ref_id_subscribers s file offset ref_id subs db)

  -- The end of each handler: store the references, then write the changed sets.
  pub finish :
      String
      → String
      → DependenciesMsg
      → ℤ
      → Result DepError Changed
      → Exec s.Db DepError (Unit {0})
  finish file obj_id deps offset (err e) db = (err e, db)
  finish file obj_id deps offset (ok changed_subs) db =
      (ok tt, write_subs file offset changed_subs (store_obj_refs s file obj_id deps offset db))

  pub add_deps : String → String → DependenciesMsg → ℤ → Exec s.Db DepError (Unit {0})
  add_deps file obj_id deps offset db =
      finish file obj_id deps offset
        (populate_all file offset (with_change added deps.references) [] db) db

  pub modify_deps : String → String → DependenciesMsg → ℤ → Exec s.Db DepError (Unit {0})
  modify_deps file obj_id deps offset db = elim (get_obj_refs s file obj_id db) [
    | err e ↦ (err e, db)
    | ok stored ↦ elim stored [
      | some found ↦
          finish file obj_id deps offset
            (populate_all file offset (get_ref_diffs deps.references found.1.references) [] db) db
      | none ↦
          finish file obj_id deps offset
            (populate_all file offset (with_change added deps.references) [] db) db
    ]
  ]

  pub delete_deps : String → String → DependenciesMsg → ℤ → Exec s.Db DepError (Unit {0})
  delete_deps file obj_id deps offset db =
      finish file obj_id (cleared deps) offset
        (populate_all file offset (with_change deleted deps.references) [] db) db

  pub update_type : String → ℤ → ChangeType → Exec s.Db DepError (Unit {0})
  update_type file offset (add object) db = elim object.dependencies [
    | none ↦ (ok tt, db)
    | some deps ↦ add_deps file object.id deps offset db
  ]
  update_type file offset (modify object) db = elim object.dependencies [
    | none ↦ (ok tt, db)
    | some deps ↦ modify_deps file object.id deps offset db
  ]
  update_type file offset (delete msg) db = elim (get_obj_refs s file msg.id db) [
    | err e ↦ (err e, db)
    | ok stored ↦ elim stored [
      | none ↦ (ok tt, db)
      | some found ↦ delete_deps file msg.id found.1 offset db
    ]
  ]

  pub update_deps_inner : String → ℤ → ChangeMsg → Exec s.Db DepError (Unit {0})
  update_deps_inner file offset change db = elim change.change_type [
    | none ↦ (ok tt, db)
    | some change_type ↦ update_type file offset change_type db
  ]

  unfoldable pub update_deps : String → ℤ → Blob → Exec s.Db DepError (Unit {0})
  update_deps file offset change db = elim (s.changes.decode change) [
    | none ↦ (err prost_decode_error, db)
    | some change_msg ↦ update_deps_inner file offset change_msg db
  ]
