-- ===== src/Operations/Viewport.antt =====
-- operations/obj-defs/src/viewport.rs: a view of the model on a sheet.
use kafka_cad.Prelude.{ℕ, Option, none, some, List, [], ◌∷◌}
use kafka_cad.Operations.Geom.{Point2f, Point3f}
use kafka_cad.Operations.References.{
  RefType, existence, ObjId, RefId, Reference, RefResult, empty_result,
}

pub data ViewType (F : Type 0) : Type 0 where
  top front left right back bottom : ViewType F
  custom : Point3f F → Point3f F → ViewType F

pub record Viewport (F : Type 0) : Type 0 where
  pub id : ObjId
  pub view : ViewType F
  pub sheet : Option ObjId
  pub origin : Point2f F
  pub scale : F

-- `id` is the new UUID.
pub new : {F : Type 0} → ObjId → ObjId → ViewType F → Point2f F → F → Viewport F
new id sheet view origin scale = record {
  id = id;
  view = view;
  sheet = some sheet;
  origin = origin;
  scale = scale;
}

unfoldable pub get_result : {F Json : Type 0} → RefType → ℕ → Viewport F → Option (RefResult F Json)
get_result existence index v = some empty_result
get_result _ index v = none

unfoldable pub get_results_for_type :
    {F Json : Type 0} → RefType → Viewport F → List (RefResult F Json)
get_results_for_type existence v = empty_result ∷ []
get_results_for_type _ v = []

unfoldable pub get_num_results_for_type : {F : Type 0} → RefType → Viewport F → ℕ
get_num_results_for_type existence v = 1
get_num_results_for_type _ v = 0

unfoldable pub clear_refs : {F : Type 0} → Viewport F → Viewport F
clear_refs v = record v { sheet = none }

unfoldable pub get_refs : {F : Type 0} → Viewport F → List (Option Reference)
get_refs v = elim v.sheet [
  | some sheet_id ↦
      some (record {
        owner = record { id = v.id; ref_type = existence; index = 0 };
        other = record { id = sheet_id; ref_type = existence; index = 0 };
      })
      ∷ []
  | none ↦ none ∷ []
]

unfoldable pub set_ref :
    {F Json : Type 0} → RefType → ℕ → RefResult F Json → RefId → Viewport F → Viewport F
set_ref existence index result other_ref v = record v { sheet = some other_ref.id }
set_ref _ index result other_ref v = v

unfoldable pub delete_ref : {F : Type 0} → RefType → ℕ → Viewport F → Viewport F
delete_ref existence index v = record v { sheet = none }
delete_ref _ index v = v
