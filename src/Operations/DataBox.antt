-- ===== src/Operations/DataBox.antt =====
-- DataBox of operations/obj-traits/src/lib.rs: an object of one of the classes of
-- operations/obj-defs. What a class does not define is the default of the trait Data.
pub mod Laws
use kafka_cad.Prelude.{ℕ, Bool, true, false, Option, none, some, List, [], ◌∷◌}
use kafka_cad.Operations.Geom.{Point3f, Floats}
use kafka_cad.Operations.References.{RefType, ObjId, RefId, Reference, RefResult}
use kafka_cad.Operations.Wall
use kafka_cad.Operations.Wall.Edits
use kafka_cad.Operations.Wall.{Wall}
use kafka_cad.Operations.Door
use kafka_cad.Operations.Door.{Door}
use kafka_cad.Operations.Sheet
use kafka_cad.Operations.Sheet.{Sheet}
use kafka_cad.Operations.Viewport
use kafka_cad.Operations.Viewport.{Viewport}
use kafka_cad.Operations.VisibilityGroup
use kafka_cad.Operations.VisibilityGroup.{VisibilityGroup}
use kafka_cad.Operations.SymbolDef
use kafka_cad.Operations.SymbolDef.{SymbolDef}
use kafka_cad.Operations.SymbolInstance
use kafka_cad.Operations.SymbolInstance.{SymbolInstance}
use kafka_cad.Operations.Data.{Data}

pub data DataBox (fl : Floats) : Type 0 where
  wall : Wall fl.F → DataBox fl
  door : Door fl.F → DataBox fl
  sheet : Sheet fl.F → DataBox fl
  viewport : Viewport fl.F → DataBox fl
  visibility_group : VisibilityGroup → DataBox fl
  symbol_def : SymbolDef fl.F → DataBox fl
  symbol_instance : SymbolInstance fl.F fl.TransMat → DataBox fl

module _ (fl : Floats) where
  unfoldable pub get_id : DataBox fl → ObjId
  get_id (wall w) = w.id
  get_id (door d) = d.id
  get_id (sheet s) = s.id
  get_id (viewport v) = v.id
  get_id (visibility_group g) = g.id
  get_id (symbol_def d) = d.id
  get_id (symbol_instance i) = i.id

  unfoldable pub reset_id : ObjId → DataBox fl → DataBox fl
  reset_id id (wall w) = wall (record w { id = id })
  reset_id id (door d) = door (record d { id = id })
  reset_id id (sheet s) = sheet (record s { id = id })
  reset_id id (viewport v) = viewport (record v { id = id })
  reset_id id (visibility_group g) = visibility_group (record g { id = id })
  reset_id id (symbol_def d) = symbol_def (record d { id = id })
  reset_id id (symbol_instance i) = symbol_instance (record i { id = id })

  unfoldable pub get_result : RefType → ℕ → DataBox fl → Option (RefResult fl.F fl.Json)
  get_result t index (wall w) = Wall.get_result fl t index w
  get_result t index (door d) = Door.get_result fl t index d
  get_result t index (sheet s) = Sheet.get_result t index s
  get_result t index (viewport v) = Viewport.get_result t index v
  get_result t index (visibility_group g) = none
  get_result t index (symbol_def d) = SymbolDef.get_result t index d
  get_result t index (symbol_instance i) = SymbolInstance.get_result fl t index i

  unfoldable pub get_results_for_type : RefType → DataBox fl → List (RefResult fl.F fl.Json)
  get_results_for_type t (wall w) = Wall.get_results_for_type fl t w
  get_results_for_type t (door d) = Door.get_results_for_type fl t d
  get_results_for_type t (sheet s) = Sheet.get_results_for_type t s
  get_results_for_type t (viewport v) = Viewport.get_results_for_type t v
  get_results_for_type t (visibility_group g) = []
  get_results_for_type t (symbol_def d) = SymbolDef.get_results_for_type t d
  get_results_for_type t (symbol_instance i) = SymbolInstance.get_results_for_type fl t i

  unfoldable pub get_num_results_for_type : RefType → DataBox fl → ℕ
  get_num_results_for_type t (wall w) = Wall.get_num_results_for_type fl t w
  get_num_results_for_type t (door d) = Door.get_num_results_for_type fl t d
  get_num_results_for_type t (sheet s) = Sheet.get_num_results_for_type t s
  get_num_results_for_type t (viewport v) = Viewport.get_num_results_for_type t v
  get_num_results_for_type t (visibility_group g) = 0
  get_num_results_for_type t (symbol_def d) = SymbolDef.get_num_results_for_type t d
  get_num_results_for_type t (symbol_instance i) = SymbolInstance.get_num_results_for_type fl t i

  unfoldable pub clear_refs : DataBox fl → DataBox fl
  clear_refs (wall w) = wall (Wall.clear_refs fl w)
  clear_refs (door d) = door (Door.clear_refs fl d)
  clear_refs (sheet s) = sheet s
  clear_refs (viewport v) = viewport (Viewport.clear_refs v)
  clear_refs (visibility_group g) = visibility_group (VisibilityGroup.clear_refs g)
  clear_refs (symbol_def d) = symbol_def d
  clear_refs (symbol_instance i) = symbol_instance (SymbolInstance.clear_refs fl i)

  unfoldable pub get_refs : DataBox fl → List (Option Reference)
  get_refs (wall w) = Wall.get_refs fl w
  get_refs (door d) = Door.get_refs fl d
  get_refs (sheet s) = []
  get_refs (viewport v) = Viewport.get_refs v
  get_refs (visibility_group g) = VisibilityGroup.get_refs g
  get_refs (symbol_def d) = []
  get_refs (symbol_instance i) = SymbolInstance.get_refs fl i

  unfoldable pub get_available_refs_for_type : RefType → DataBox fl → List ℕ
  get_available_refs_for_type t (wall w) = Wall.get_available_refs_for_type fl t w
  get_available_refs_for_type t (door d) = Door.get_available_refs_for_type fl t d
  get_available_refs_for_type t (sheet s) = []
  get_available_refs_for_type t (viewport v) = []
  get_available_refs_for_type t (visibility_group g) = []
  get_available_refs_for_type t (symbol_def d) = []
  get_available_refs_for_type t (symbol_instance i) =
      SymbolInstance.get_available_refs_for_type fl t i

  unfoldable pub set_ref :
      RefType
      → ℕ
      → RefResult fl.F fl.Json
      → RefId
      → Option (RefResult fl.F fl.Json)
      → DataBox fl
      → DataBox fl
  set_ref t index result other_ref extra (wall w) =
      wall (Edits.set_ref fl t index result other_ref w)
  set_ref t index result other_ref extra (door d) =
      door (Door.set_ref fl t index result other_ref extra d)
  set_ref t index result other_ref extra (sheet s) = sheet s
  set_ref t index result other_ref extra (viewport v) =
      viewport (Viewport.set_ref t index result other_ref v)
  set_ref t index result other_ref extra (visibility_group g) = visibility_group g
  set_ref t index result other_ref extra (symbol_def d) = symbol_def d
  set_ref t index result other_ref extra (symbol_instance i) =
      symbol_instance (SymbolInstance.set_ref fl t index result other_ref i)

  unfoldable pub add_ref :
      RefType
      → RefResult fl.F fl.Json
      → RefId
      → Option (RefResult fl.F fl.Json)
      → DataBox fl
      → Bool × DataBox fl
  add_ref t result other_ref extra (wall w) =
      let (added, w') = Edits.add_ref fl t result other_ref w in (added, wall w')
  add_ref t result other_ref extra (door d) = (false, door d)
  add_ref t result other_ref extra (sheet s) = (false, sheet s)
  add_ref t result other_ref extra (viewport v) = (false, viewport v)
  add_ref t result other_ref extra (visibility_group g) =
      let (added, g') = VisibilityGroup.add_ref t result other_ref g in (added, visibility_group g')
  add_ref t result other_ref extra (symbol_def d) = (false, symbol_def d)
  add_ref t result other_ref extra (symbol_instance i) = (false, symbol_instance i)

  unfoldable pub delete_ref : RefType → ℕ → DataBox fl → DataBox fl
  delete_ref t index (wall w) = wall (Edits.delete_ref fl t index w)
  delete_ref t index (door d) = door (Door.delete_ref fl t index d)
  delete_ref t index (sheet s) = sheet s
  delete_ref t index (viewport v) = viewport (Viewport.delete_ref t index v)
  delete_ref t index (visibility_group g) = visibility_group (VisibilityGroup.delete_ref t index g)
  delete_ref t index (symbol_def d) = symbol_def d
  delete_ref t index (symbol_instance i) = symbol_instance (SymbolInstance.delete_ref fl t index i)

  unfoldable pub set_associated_result_for_type :
      RefType → ℕ → Option (RefResult fl.F fl.Json) → DataBox fl → DataBox fl
  set_associated_result_for_type t index result (wall w) =
      wall (Edits.set_associated_result_for_type fl t index result w)
  set_associated_result_for_type t index result (door d) =
      door (Door.set_associated_result_for_type fl t index result d)
  set_associated_result_for_type t index result (sheet s) = sheet s
  set_associated_result_for_type t index result (viewport v) = viewport v
  set_associated_result_for_type t index result (visibility_group g) =
      visibility_group (VisibilityGroup.set_associated_result_for_type t index result g)
  set_associated_result_for_type t index result (symbol_def d) = symbol_def d
  set_associated_result_for_type t index result (symbol_instance i) =
      symbol_instance (SymbolInstance.set_associated_result_for_type fl t index result i)

  unfoldable pub move_obj : Point3f fl.F → DataBox fl → Option (DataBox fl)
  move_obj delta (wall w) = some (wall (Wall.move_obj fl delta w))
  move_obj delta (door d) = some (door (Door.move_obj fl delta d))
  move_obj delta (sheet s) = none
  move_obj delta (viewport v) = none
  move_obj delta (visibility_group g) = none
  move_obj delta (symbol_def d) = none
  move_obj delta (symbol_instance i) = some (symbol_instance (SymbolInstance.move_obj fl delta i))

  unfoldable pub is_visibility_group : DataBox fl → Bool
  is_visibility_group (visibility_group g) = true
  is_visibility_group _ = false

  -- impl Data for each class.
  abbrev pub data_box : Data fl
  data_box = record {
    Obj = DataBox fl;
    get_id = get_id;
    reset_id = reset_id;
    get_result = get_result;
    get_results_for_type = get_results_for_type;
    get_num_results_for_type = get_num_results_for_type;
    clear_refs = clear_refs;
    get_refs = get_refs;
    get_available_refs_for_type = get_available_refs_for_type;
    set_ref = set_ref;
    add_ref = add_ref;
    delete_ref = delete_ref;
    set_associated_result_for_type = set_associated_result_for_type;
    move_obj = move_obj;
    is_visibility_group = is_visibility_group;
  }
