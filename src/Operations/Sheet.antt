-- ===== src/Operations/Sheet.antt =====
-- operations/obj-defs/src/sheet.rs: a sheet of paper. What it does not define it has from the trait
-- Data.
use kafka_cad.Prelude.{ℕ, String, Option, none, some, List, [], ◌∷◌}
use kafka_cad.Operations.Geom.{Point2f}
use kafka_cad.Operations.References.{RefType, existence, ObjId, RefResult, empty_result}

pub record Sheet (F : Type 0) : Type 0 where
  pub id : ObjId
  pub name : String
  pub print_size : Point2f F

-- `id` is the new UUID.
pub new : {F : Type 0} → ObjId → String → Point2f F → Sheet F
new id name print_size = record { id = id; name = name; print_size = print_size }

unfoldable pub get_result : {F Json : Type 0} → RefType → ℕ → Sheet F → Option (RefResult F Json)
get_result existence index s = some empty_result
get_result _ index s = none

unfoldable pub get_results_for_type :
    {F Json : Type 0} → RefType → Sheet F → List (RefResult F Json)
get_results_for_type existence s = empty_result ∷ []
get_results_for_type _ s = []

unfoldable pub get_num_results_for_type : {F : Type 0} → RefType → Sheet F → ℕ
get_num_results_for_type existence s = 1
get_num_results_for_type _ s = 0
