-- ===== src/Operations/SymbolDef.antt =====
-- operations/obj-defs/src/symbol_def.rs: the bounding box of what another file holds.
use kafka_cad.Prelude.{ℕ, Option, none, some, List, [], ◌∷◌}
use kafka_cad.Operations.Geom.{Cube}
use kafka_cad.Operations.References.{
  RefType, existence, axis_aligned_bound_box, ObjId, RefResult, empty_result, cube,
}

-- A file is a UUID, and a change a number.
pub record SymbolDef (F : Type 0) : Type 0 where
  pub id : ObjId
  pub sym_file : ObjId
  pub change : ℕ
  pub bbox : Cube F

-- `id` is the new UUID.
pub new : {F : Type 0} → ObjId → ObjId → ℕ → Cube F → SymbolDef F
new id sym_file change bbox = record { id = id; sym_file = sym_file; change = change; bbox = bbox }

pub set_bbox : {F : Type 0} → ObjId → ℕ → Cube F → SymbolDef F → SymbolDef F
set_bbox sym_file change bbox d = record d { sym_file = sym_file; change = change; bbox = bbox }

unfoldable pub get_result :
    {F Json : Type 0} → RefType → ℕ → SymbolDef F → Option (RefResult F Json)
get_result existence result d = some empty_result
get_result axis_aligned_bound_box result d = some (cube d.bbox)
get_result _ result d = none

unfoldable pub get_results_for_type :
    {F Json : Type 0} → RefType → SymbolDef F → List (RefResult F Json)
get_results_for_type existence d = empty_result ∷ []
get_results_for_type axis_aligned_bound_box d = cube d.bbox ∷ []
get_results_for_type _ d = []

unfoldable pub get_num_results_for_type : {F : Type 0} → RefType → SymbolDef F → ℕ
get_num_results_for_type existence d = 1
get_num_results_for_type axis_aligned_bound_box d = 1
get_num_results_for_type _ d = 0
