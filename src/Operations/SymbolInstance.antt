-- ===== src/Operations/SymbolInstance.antt =====
-- operations/obj-defs/src/symbol_instance.rs: a symbol at its place in the model.
use kafka_cad.Prelude.{ℕ, zero, Option, none, some, List, [], ◌∷◌}
use kafka_cad.Operations.Geom.{Point3f, Cube, Floats, apply_transform}
use kafka_cad.Operations.References.{
  RefType, drawable, existence, axis_aligned_bound_box, ObjId, RefId, Reference, RefResult,
  empty_result, cube, UpdatableInfo, new_info, update, set_reference, cube_from_result,
}

pub record SymbolInstance (F TransMat : Type 0) : Type 0 where
  pub id : ObjId
  pub bbox : UpdatableInfo (Cube F)
  pub transform : TransMat

module _ (fl : Floats) where
  abbrev pub Instance : Type 0
  Instance = SymbolInstance fl.F fl.TransMat

  -- `id` is the new UUID.
  pub new : ObjId → Instance
  new id =
      let origin : Point3f fl.F = record { x = fl.zero_f; y = fl.zero_f; z = fl.zero_f } in
      record {
        id = id;
        bbox = new_info (record { bottom_left = origin; top_right = origin });
        transform = fl.identity_mat;
      }

  unfoldable pub get_transformed : Instance → RefResult fl.F fl.Json
  get_transformed i = cube (apply_transform fl i.transform i.bbox.info)

  pub move_obj : Point3f fl.F → Instance → Instance
  move_obj delta i = record i { transform = fl.concat i.transform (fl.from_translation delta) }

  unfoldable pub get_result : RefType → ℕ → Instance → Option (RefResult fl.F fl.Json)
  get_result drawable result i = some empty_result
  get_result existence result i = some empty_result
  get_result axis_aligned_bound_box result i = some (get_transformed i)
  get_result _ result i = none

  unfoldable pub get_results_for_type : RefType → Instance → List (RefResult fl.F fl.Json)
  get_results_for_type drawable i = empty_result ∷ []
  get_results_for_type existence i = empty_result ∷ []
  get_results_for_type axis_aligned_bound_box i = get_transformed i ∷ []
  get_results_for_type _ i = []

  unfoldable pub get_num_results_for_type : RefType → Instance → ℕ
  get_num_results_for_type drawable i = 1
  get_num_results_for_type existence i = 1
  get_num_results_for_type axis_aligned_bound_box i = 1
  get_num_results_for_type _ i = 0

  unfoldable pub clear_refs : Instance → Instance
  clear_refs i = record i { bbox = record i.bbox { refer = none } }

  unfoldable pub get_refs : Instance → List (Option Reference)
  get_refs i = elim i.bbox.refer [
    | some refer ↦
        some (record {
          owner = record { id = i.id; ref_type = axis_aligned_bound_box; index = 0 };
          other = refer;
        })
        ∷ []
    | none ↦ none ∷ []
  ]

  pub get_available_refs_for_type : RefType → Instance → List ℕ
  get_available_refs_for_type axis_aligned_bound_box i = elim i.bbox.refer [
    | none ↦ 0 ∷ []
    | some _ ↦ []
  ]
  get_available_refs_for_type _ i = []

  unfoldable pub set_ref : RefType → ℕ → RefResult fl.F fl.Json → RefId → Instance → Instance
  set_ref axis_aligned_bound_box zero result other_ref i = record i {
    bbox = set_reference cube_from_result result other_ref i.bbox;
  }
  set_ref _ index result other_ref i = i

  unfoldable pub delete_ref : RefType → ℕ → Instance → Instance
  delete_ref axis_aligned_bound_box zero i = record i { bbox = record i.bbox { refer = none } }
  delete_ref _ index i = i

  unfoldable pub set_associated_result_for_type :
      RefType → ℕ → Option (RefResult fl.F fl.Json) → Instance → Instance
  set_associated_result_for_type axis_aligned_bound_box zero result i = record i {
    bbox = update cube_from_result result i.bbox;
  }
  set_associated_result_for_type _ index result i = i
