-- ===== src/Operations/DataBox/Laws.antt =====
-- What holds of every class of object.
use kafka_cad.Prelude.{ℕ, zero, suc, ◌≡◌, refl, Option, arith}
use kafka_cad.Operations.Geom.{Floats}
use kafka_cad.Operations.References.{
  RefType, drawable, existence, axis_aligned_bound_box, profile_point, profile_line, profile_plane,
  property, empty_type, RefResult,
}
use kafka_cad.Operations.Wall.{Wall}
use kafka_cad.Operations.Wall.Edits
use kafka_cad.Operations.Wall.Results.{collect_from}
use kafka_cad.Operations.Wall.Results
use kafka_cad.Operations.Door
use kafka_cad.Operations.Door.{Door}
use kafka_cad.Operations.Sheet
use kafka_cad.Operations.Viewport
use kafka_cad.Operations.VisibilityGroup
use kafka_cad.Operations.VisibilityGroup.{VisibilityGroup}
use kafka_cad.Operations.SymbolDef
use kafka_cad.Operations.SymbolInstance
use kafka_cad.Operations.SymbolInstance.{SymbolInstance, Instance}
use kafka_cad.Operations.DataBox.{
  DataBox, wall, door, sheet, viewport, visibility_group, symbol_def, symbol_instance, get_id,
  get_result, get_results_for_type, get_num_results_for_type, set_associated_result_for_type,
}

module _ (fl : Floats) where
  wall_id :
      (t : RefType) (index : ℕ) (r : Option (RefResult fl.F fl.Json)) (w : Wall fl.F)
      → (Edits.set_associated_result_for_type fl t index r w).id ≡ w.id
  unfolding Edits.set_associated_result_for_type
  wall_id drawable index r w = refl
  wall_id existence index r w = refl
  wall_id axis_aligned_bound_box index r w = refl
  wall_id profile_point zero r w = refl
  wall_id profile_point (suc zero) r w = refl
  wall_id profile_point (suc (suc index)) r w = refl
  wall_id profile_line index r w = refl
  wall_id profile_plane index r w = refl
  wall_id property index r w = refl
  wall_id empty_type index r w = refl

  door_id :
      (t : RefType) (index : ℕ) (r : Option (RefResult fl.F fl.Json)) (w : Door fl.F)
      → (Door.set_associated_result_for_type fl t index r w).id ≡ w.id
  unfolding Door.set_associated_result_for_type
  door_id t index r w = ground arith

  group_id :
      (t : RefType) (index : ℕ) (r : Option (RefResult fl.F fl.Json)) (g : VisibilityGroup)
      → (VisibilityGroup.set_associated_result_for_type t index r g).id ≡ g.id
  unfolding VisibilityGroup.set_associated_result_for_type
  group_id t index r g = ground arith

  instance_id :
      (t : RefType) (index : ℕ) (r : Option (RefResult fl.F fl.Json)) (i : Instance fl)
      → (SymbolInstance.set_associated_result_for_type fl t index r i).id ≡ i.id
  unfolding SymbolInstance.set_associated_result_for_type
  instance_id t index r i = ground arith

  pub set_associated_result_for_type-get_id :
      (t : RefType) (index : ℕ) (r : Option (RefResult fl.F fl.Json)) (obj : DataBox fl)
      → get_id fl (set_associated_result_for_type fl t index r obj) ≡ get_id fl obj
  unfolding set_associated_result_for_type get_id
  set_associated_result_for_type-get_id t index r (wall w) = wall_id t index r w
  set_associated_result_for_type-get_id t index r (door d) = door_id t index r d
  set_associated_result_for_type-get_id t index r (sheet s) = refl
  set_associated_result_for_type-get_id t index r (viewport v) = refl
  set_associated_result_for_type-get_id t index r (visibility_group g) = group_id t index r g
  set_associated_result_for_type-get_id t index r (symbol_def d) = refl
  set_associated_result_for_type-get_id t index r (symbol_instance i) = instance_id t index r i

  abbrev Collects : DataBox fl → RefType → Type 0
  Collects obj t =
      get_results_for_type fl t obj
      ≡ collect_from (get_num_results_for_type fl t obj) 0 (λ i. get_result fl t i obj)

  -- For every class of object and every type, the results of the type are those of the indices
  -- below the number of results of the type, in their order, that have one.
  pub results-collect :
      (t : RefType) (obj : DataBox fl)
      → get_results_for_type fl t obj
        ≡ collect_from (get_num_results_for_type fl t obj) 0 (λ i. get_result fl t i obj)
  unfolding get_results_for_type get_num_results_for_type get_result Door.get_results_for_type
      Door.get_num_results_for_type Door.get_result Sheet.get_results_for_type
      Sheet.get_num_results_for_type Sheet.get_result Viewport.get_results_for_type
      Viewport.get_num_results_for_type Viewport.get_result SymbolDef.get_results_for_type
      SymbolDef.get_num_results_for_type SymbolDef.get_result SymbolInstance.get_results_for_type
      SymbolInstance.get_num_results_for_type SymbolInstance.get_result
  results-collect t (wall w) = Results.get_results_for_type-collect fl t w
  results-collect t (visibility_group g) = refl
  results-collect t (door d) = elim t as (Collects (door d)) [
    | drawable ↦ refl
    | existence ↦ refl
    | axis_aligned_bound_box ↦ refl
    | profile_point ↦ refl
    | profile_line ↦ refl
    | profile_plane ↦ refl
    | property ↦ refl
    | empty_type ↦ refl
  ]
  results-collect t (sheet s) = elim t as (Collects (sheet s)) [
    | drawable ↦ refl
    | existence ↦ refl
    | axis_aligned_bound_box ↦ refl
    | profile_point ↦ refl
    | profile_line ↦ refl
    | profile_plane ↦ refl
    | property ↦ refl
    | empty_type ↦ refl
  ]
  results-collect t (viewport v) = elim t as (Collects (viewport v)) [
    | drawable ↦ refl
    | existence ↦ refl
    | axis_aligned_bound_box ↦ refl
    | profile_point ↦ refl
    | profile_line ↦ refl
    | profile_plane ↦ refl
    | property ↦ refl
    | empty_type ↦ refl
  ]
  results-collect t (symbol_def d) = elim t as (Collects (symbol_def d)) [
    | drawable ↦ refl
    | existence ↦ refl
    | axis_aligned_bound_box ↦ refl
    | profile_point ↦ refl
    | profile_line ↦ refl
    | profile_plane ↦ refl
    | property ↦ refl
    | empty_type ↦ refl
  ]
  results-collect t (symbol_instance i) = elim t as (Collects (symbol_instance i)) [
    | drawable ↦ refl
    | existence ↦ refl
    | axis_aligned_bound_box ↦ refl
    | profile_point ↦ refl
    | profile_line ↦ refl
    | profile_plane ↦ refl
    | property ↦ refl
    | empty_type ↦ refl
  ]
