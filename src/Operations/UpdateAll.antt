-- ===== src/Operations/UpdateAll.antt =====
-- operations/operations-lib/src/updates.rs: what follows a part is set to the part's result.
pub mod Frame
pub mod Follows
use kafka_cad.Prelude.{Bool, Option, none, some, List, [], ◌∷◌, string_eq, ◌==◌, if◌then◌else◌}
use kafka_cad.Maps.{IndexMap, IndexMaps}
use kafka_cad.Operations.Geom.{Floats}
use kafka_cad.Operations.References.{RefId, Reference, RefResult}
use kafka_cad.Operations.Data.{Data}

module _ {fl : Floats} (d : Data fl) where
  pub set_owner : RefId → Option (RefResult fl.F fl.Json) → Option d.Obj → Option d.Obj
  set_owner owner result none = none
  set_owner owner result (some updatable) =
      some (d.set_associated_result_for_type owner.ref_type owner.index result updatable)

-- An object that was deleted is None.
module _ {fl : Floats} (d : Data fl) (maps : IndexMaps (Option d.Obj)) where
  unfoldable pub get_ref_result : IndexMap (Option d.Obj) → RefId → Option (RefResult fl.F fl.Json)
  get_ref_result objs index = elim (maps.get objs index.id) [
    | none ↦ none
    | some obj_opt ↦ elim obj_opt [
      | none ↦ none
      | some obj ↦ d.get_result index.ref_type index.index obj
    ]
  ]

  pub update_reference : IndexMap (Option d.Obj) → Reference → IndexMap (Option d.Obj)
  update_reference objs refer =
      if refer.owner.id == refer.other.id
      then objs
      else maps.get_mut objs refer.owner.id
          (set_owner d refer.owner (get_ref_result objs refer.other))

  unfoldable pub update_all : IndexMap (Option d.Obj) → List Reference → IndexMap (Option d.Obj)
  update_all objs [] = objs
  update_all objs (refer ∷ refs) = update_all (update_reference objs refer) refs
