-- ===== src/Operations/VisibilityGroup.antt =====
-- operations/obj-defs/src/visibility_group.rs: objects that are shown together.
use kafka_cad.Prelude.{ℕ, suc, Bool, true, false, Option, none, some, List, [], ◌∷◌, ◌++◌, set}
use kafka_cad.Operations.References.{RefType, drawable, ObjId, RefId, Reference, RefResult}

-- A child that was deleted is None.
pub record VisibilityGroup : Type 0 where
  pub id : ObjId
  pub children : List (Option RefId)

-- `id` is the new UUID.
pub new : ObjId → VisibilityGroup
new id = record { id = id; children = [] }

unfoldable pub clear_refs : VisibilityGroup → VisibilityGroup
clear_refs g = record g { children = [] }

-- The loop of get_refs, from an index on.
unfoldable pub child_refs : ObjId → ℕ → List (Option RefId) → List (Option Reference)
child_refs id index [] = []
child_refs id index (some child ∷ children) =
    some (record { owner = record { id = id; ref_type = drawable; index = index }; other = child })
    ∷ child_refs id (suc index) children
child_refs id index (none ∷ children) = none ∷ child_refs id (suc index) children

unfoldable pub get_refs : VisibilityGroup → List (Option Reference)
get_refs g = child_refs g.id 0 g.children

unfoldable pub add_ref :
    {F Json : Type 0}
    → RefType
    → RefResult F Json
    → RefId
    → VisibilityGroup
    → Bool × VisibilityGroup
add_ref drawable result other_ref g =
    (true, record g { children = g.children ++ some other_ref ∷ [] })
add_ref _ result other_ref g = (false, g)

-- get_mut is None past the end, where `set` changes nothing.
unfoldable pub delete_ref : RefType → ℕ → VisibilityGroup → VisibilityGroup
delete_ref drawable index g = record g { children = set g.children index none }
delete_ref _ index g = g

unfoldable pub set_associated_result_for_type :
    {F Json : Type 0} → RefType → ℕ → Option (RefResult F Json) → VisibilityGroup → VisibilityGroup
set_associated_result_for_type drawable index none g = record g {
  children = set g.children index none;
}
set_associated_result_for_type _ index result g = g
