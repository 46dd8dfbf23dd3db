-- ===== src/Operations/Wall/Edits.antt =====
-- The changes of operations/obj-defs/src/wall.rs to the references of a wall.
use kafka_cad.Prelude.{
  ℕ, zero, suc, Bool, true, false, Option, none, some, [], ◌∷◌, ◌++◌, get_elem?, set,
}
use kafka_cad.Operations.Geom.{Floats}
use kafka_cad.Operations.References.{
  RefType, profile_point, profile_plane, RefId, RefResult, new_info, update, set_reference,
  point_from_result, plane_from_result,
}
use kafka_cad.Operations.Wall.{Wall, Openings}

module _ (fl : Floats) where
  -- The plane part of set_ref, on the openings.
  unfoldable pub set_open : ℕ → RefResult fl.F fl.Json → RefId → Openings fl.F → Openings fl.F
  set_open index result other_ref opens = elim (get_elem? opens index) [
    | none ↦ opens
    | some open_opt ↦ elim open_opt [
      | some open_ ↦ set opens index (some (set_reference plane_from_result result other_ref open_))
      | none ↦ elim (plane_from_result result) [
        | none ↦ opens
        | some p ↦
            set opens index (some (set_reference plane_from_result result other_ref (new_info p)))
      ]
    ]
  ]

  unfoldable pub set_ref : RefType → ℕ → RefResult fl.F fl.Json → RefId → Wall fl.F → Wall fl.F
  set_ref profile_point zero result other_ref w = record w {
    first_pt = set_reference point_from_result result other_ref w.first_pt;
  }
  set_ref profile_point (suc zero) result other_ref w = record w {
    second_pt = set_reference point_from_result result other_ref w.second_pt;
  }
  set_ref profile_plane index result other_ref w = record w {
    openings = set_open index result other_ref w.openings;
  }
  set_ref _ index result other_ref w = w

  unfoldable pub add_ref : RefType → RefResult fl.F fl.Json → RefId → Wall fl.F → Bool × Wall fl.F
  add_ref profile_plane result other_ref w = elim (plane_from_result result) [
    | none ↦ (false, w)
    | some p ↦ (
      true,
      record w {
        openings =
            w.openings ++ some (set_reference plane_from_result result other_ref (new_info p)) ∷ [];
      },
    )
  ]
  add_ref _ result other_ref w = (false, w)

  unfoldable pub delete_ref : RefType → ℕ → Wall fl.F → Wall fl.F
  delete_ref profile_point zero w = record w { first_pt = record w.first_pt { refer = none } }
  delete_ref profile_point (suc zero) w = record w {
    second_pt = record w.second_pt { refer = none };
  }
  delete_ref profile_plane index w = record w { openings = set w.openings index none }
  delete_ref _ index w = w

  unfoldable pub update_open : ℕ → Option (RefResult fl.F fl.Json) → Openings fl.F → Openings fl.F
  update_open index result opens = elim (get_elem? opens index) [
    | none ↦ opens
    | some open_opt ↦ elim open_opt [
      | none ↦ opens
      | some open_ ↦ set opens index (some (update plane_from_result result open_))
    ]
  ]

  unfoldable pub set_associated_result_for_type :
      RefType → ℕ → Option (RefResult fl.F fl.Json) → Wall fl.F → Wall fl.F
  set_associated_result_for_type profile_point zero result w = record w {
    first_pt = update point_from_result result w.first_pt;
  }
  set_associated_result_for_type profile_point (suc zero) result w = record w {
    second_pt = update point_from_result result w.second_pt;
  }
  set_associated_result_for_type profile_plane index result w = record w {
    openings = update_open index result w.openings;
  }
  set_associated_result_for_type _ index result w = w
