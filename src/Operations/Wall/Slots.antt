-- ===== src/Operations/Wall/Slots.antt =====
-- The places of a wall's references in get_refs, which the dependency service compares place by
-- place (get_ref_diffs of dependencies/src/cache.rs): each change touches only its own place.
use native.Mathlib.Nat.{add-zero, suc-add, add-suc, zero-add}
use kafka_cad.Prelude.{
  ℕ, zero, suc, ◌+◌, ◌≡◌, refl, sym, ap, ◌∙◌, Option, none, some, List, [], ◌∷◌, get_elem?, set,
  Option-cases, inl, inr,
}
use kafka_cad.Operations.Geom.{Plane, Point3f, Floats}
use kafka_cad.Operations.References.{
  RefType, drawable, existence, axis_aligned_bound_box, profile_point, profile_line, profile_plane,
  property, empty_type, ObjId, RefId, Reference, point, plane, UpdatableInfo, set_reference,
  point_from_result, plane_from_result,
}
use kafka_cad.Operations.Wall.{Wall, Openings, open_refs, follows, get_refs}
use kafka_cad.Operations.Wall.Edits.{set_open, set_ref, delete_ref}

-- Where in get_refs the reference of a part stands.
abbrev pub slot : RefType → ℕ → Option ℕ
slot profile_point zero = some 0
slot profile_point (suc zero) = some 1
slot profile_plane index = some (suc (suc (suc (suc (suc (suc index))))))
slot _ index = none

-- A list with another value at a place, if the part has one.
abbrev pub set_slot :
    RefType → ℕ → Option Reference → List (Option Reference) → List (Option Reference)
set_slot t index o refs = elim (slot t index) [ none ↦ refs | some k ↦ set refs k o ]

abbrev open_ref : {F : Type 0} → ObjId → ℕ → Option (UpdatableInfo (Plane F)) → Option Reference
open_ref id index none = none
open_ref id index (some open_) = elim open_.refer [
  | none ↦ none
  | some other ↦ some (record {
    owner = record { id = id; ref_type = profile_plane; index = index };
    other = other;
  })
]

open_refs-cons :
    {F : Type 0} (id : ObjId) (first : ℕ) (o : Option (UpdatableInfo (Plane F)))
    (opens : Openings F)
    → open_refs id first (o ∷ opens) ≡ open_ref id first o ∷ open_refs id (suc first) opens
unfolding open_refs
open_refs-cons id first none opens = refl
open_refs-cons id first (some open_) opens = refl

open_refs-set :
    {F : Type 0} (id : ObjId) (first index : ℕ) (opens : Openings F)
    (o : Option (UpdatableInfo (Plane F)))
    → open_refs id first (set opens index o)
      ≡ set (open_refs id first opens) index (open_ref id (first + index) o)
unfolding open_refs
open_refs-set id first index [] o = refl
open_refs-set id first zero (x ∷ opens) o =
    open_refs-cons id first o opens
    ∙ ap (λ k. open_ref id k o ∷ open_refs id (suc first) opens) (sym (add-zero first))
    ∙ sym (ap (λ l. set l 0 (open_ref id (first + 0) o)) (open_refs-cons id first x opens))
open_refs-set id first (suc index) (x ∷ opens) o =
    open_refs-cons id first x (set opens index o)
    ∙ ap (◌∷◌ (open_ref id first x)) (
        open_refs-set id (suc first) index opens o
        ∙ ap (λ k. set (open_refs id (suc first) opens) index (open_ref id k o))
            (suc-add first index ∙ sym (add-suc first index)))
    ∙ sym (
        ap (λ l. set l (suc index) (open_ref id (first + suc index) o))
          (open_refs-cons id first x opens))

module _ (fl : Floats) where
  -- get_refs, with another list of the references of the openings.
  abbrev before_opens : Wall fl.F → List (Option Reference) → List (Option Reference)
  before_opens w refs =
      let self_pt_0 : RefId = record { id = w.id; ref_type = profile_point; index = 0 } in
      let self_pt_1 : RefId = record { id = w.id; ref_type = profile_point; index = 1 } in
      let self_line : RefId = record { id = w.id; ref_type = profile_line; index = 0 } in
      let self_bbox : RefId = record { id = w.id; ref_type = axis_aligned_bound_box; index = 0 } in
      follows fl self_pt_0 w.first_pt.refer
      ∷ follows fl self_pt_1 w.second_pt.refer
      ∷ some (record { owner = self_bbox; other = self_pt_0 })
      ∷ some (record { owner = self_bbox; other = self_pt_1 })
      ∷ some (record { owner = self_line; other = self_pt_0 })
      ∷ some (record { owner = self_line; other = self_pt_1 })
      ∷ refs

  -- Deleting the reference of a part empties its place in get_refs, where it has one, and changes
  -- no other place.
  pub get_refs-delete_ref :
      (t : RefType) (index : ℕ) (w : Wall fl.F)
      → get_refs fl (delete_ref fl t index w) ≡ set_slot t index none (get_refs fl w)
  unfolding get_refs delete_ref
  get_refs-delete_ref profile_point zero w = refl
  get_refs-delete_ref profile_point (suc zero) w = refl
  get_refs-delete_ref profile_point (suc (suc index)) w = refl
  get_refs-delete_ref profile_plane index w =
      ap (before_opens w) (open_refs-set w.id 0 index w.openings none)
  get_refs-delete_ref drawable index w = refl
  get_refs-delete_ref existence index w = refl
  get_refs-delete_ref axis_aligned_bound_box index w = refl
  get_refs-delete_ref profile_line index w = refl
  get_refs-delete_ref property index w = refl
  get_refs-delete_ref empty_type index w = refl

  set_missing : {A : Type 0} (xs : List A) (i : ℕ) (v : A) → get_elem? xs i ≡ none → set xs i v ≡ xs
  set_missing [] i v h = refl
  set_missing (x ∷ xs) zero v h = cc h
  set_missing (x ∷ xs) (suc i) v h = ap (◌∷◌ x) (set_missing xs i v h)

  set_open-set :
      (index : ℕ) (p : Plane fl.F) (other : RefId) (opens : Openings fl.F)
      → set_open fl index (plane p) other opens
        ≡ set opens index (some (record { refer = some other; info = p }))
  unfolding set_open plane_from_result set_reference
  set_open-set index p other opens = elim (Option-cases (get_elem? opens index)) [
    | inl h ↦ rw (h, set_open) (sym (set_missing opens index _ h))
    | inr (none, h) ↦ rw (h, set_open)
    | inr (some open_, h) ↦ rw (h, set_open)
  ]

  set_point :
      (index : ℕ) (p : Point3f fl.F) (other : RefId) (w : Wall fl.F)
      → get_refs fl (set_ref fl profile_point index (point p) other w)
        ≡ set_slot profile_point index
            (some (record {
              owner = record { id = w.id; ref_type = profile_point; index = index };
              other = other;
            }))
            (get_refs fl w)
  unfolding get_refs set_ref set_reference point_from_result
  set_point zero p other w = refl
  set_point (suc zero) p other w = refl
  set_point (suc (suc index)) p other w = refl

  -- Setting the reference of a point to a point, or of a plane to a plane, puts it at the part's
  -- place in get_refs, where it has one, and changes no other place.
  pub get_refs-set_ref :
      (index : ℕ) (other : RefId) (w : Wall fl.F)
      → ((p : Point3f fl.F)
          → get_refs fl (set_ref fl profile_point index (point p) other w)
            ≡ set_slot profile_point index
                (some (record {
                  owner = record { id = w.id; ref_type = profile_point; index = index };
                  other = other;
                }))
                (get_refs fl w))
        × ((p : Plane fl.F)
            → get_refs fl (set_ref fl profile_plane index (plane p) other w)
              ≡ set_slot profile_plane index
                  (some (record {
                    owner = record { id = w.id; ref_type = profile_plane; index = index };
                    other = other;
                  }))
                  (get_refs fl w))
  unfolding get_refs set_ref
  get_refs-set_ref index other w = (
    λ p. set_point index p other w,
    λ p. ap (before_opens w) (
        ap (open_refs w.id 0) (set_open-set index p other w.openings)
        ∙ open_refs-set w.id 0 index w.openings _
        ∙ ap
            (λ k. set (open_refs w.id 0 w.openings) index (
              some (record {
                owner = record { id = w.id; ref_type = profile_plane; index = k };
                other = other;
              })))
            (zero-add index)),
  )
