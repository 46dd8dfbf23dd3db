-- ===== src/Operations/Wall/Results.antt =====
-- The results of a wall by type, against those by index.
use kafka_cad.Prelude.{
  ℕ, zero, suc, ◌≡◌, refl, sym, ap, ◌∙◌, Option, none, some, List, [], ◌∷◌, length, get_elem?,
}
use kafka_cad.Operations.Geom.{Floats}
use kafka_cad.Operations.References.{
  RefType, drawable, existence, axis_aligned_bound_box, profile_point, profile_line, profile_plane,
  property, empty_type, RefResult, plane,
}
use kafka_cad.Operations.Wall.{
  Wall, Openings, open_results, get_result, get_results_for_type, get_num_results_for_type,
}

-- The values at `count` indices from an index on, where there are some.
abbrev pub collect_from : {A : Type 0} → ℕ → ℕ → (ℕ → Option A) → List A
collect_from zero index f = []
collect_from (suc count) index f = elim (f index) [
  | none ↦ collect_from count (suc index) f
  | some a ↦ a ∷ collect_from count (suc index) f
]

collect_later :
    {A : Type 0} (count index : ℕ) (f g : ℕ → Option A)
    → ((i : ℕ) → f (suc i) ≡ g i)
    → collect_from count (suc index) f ≡ collect_from count index g
collect_later zero index f g h = refl
collect_later (suc count) index f g h =
    ap
      (λ o. elim o [
        | none ↦ collect_from count (suc (suc index)) f
        | some a ↦ a ∷ collect_from count (suc (suc index)) f
      ])
      (h index)
    ∙ ap (λ l. elim (g index) [ none ↦ l | some a ↦ a ∷ l ]) (collect_later count (suc index) f g h)

module _ (fl : Floats) where
  abbrev open_at : Openings fl.F → ℕ → Option (RefResult fl.F fl.Json)
  open_at opens i = elim (get_elem? opens i) [
    | none ↦ none
    | some open_opt ↦ elim open_opt [ none ↦ none | some open_ ↦ some (plane open_.info) ]
  ]

  collect-open_results :
      (opens : Openings fl.F) → collect_from (length opens) 0 (open_at opens) ≡ open_results opens
  unfolding open_results
  collect-open_results [] = refl
  collect-open_results (none ∷ opens) =
      collect_later (length opens) 0 (open_at (none ∷ opens)) (open_at opens) (λ i. refl)
      ∙ collect-open_results opens
  collect-open_results (some open_ ∷ opens) = ap (◌∷◌ (plane open_.info)) (
      collect_later (length opens) 0 (open_at (some open_ ∷ opens)) (open_at opens) (λ i. refl)
      ∙ collect-open_results opens)

  -- For every type, the results of a wall are those of the indices below the number of results,
  -- in their order, that have one; an index whose opening was deleted has none.
  pub get_results_for_type-collect :
      (t : RefType) (w : Wall fl.F)
      → get_results_for_type fl t w
        ≡ collect_from (get_num_results_for_type fl t w) 0 (λ i. get_result fl t i w)
  unfolding get_results_for_type get_num_results_for_type get_result
  get_results_for_type-collect drawable w = refl
  get_results_for_type-collect existence w = refl
  get_results_for_type-collect axis_aligned_bound_box w = refl
  get_results_for_type-collect profile_point w = refl
  get_results_for_type-collect profile_line w = refl
  get_results_for_type-collect profile_plane w = sym (collect-open_results w.openings)
  get_results_for_type-collect property w = refl
  get_results_for_type-collect empty_type w = refl
