-- ===== src/Operations/References.antt =====
-- operations/obj-traits/src/references.rs: the parts of objects, and what of another object they
-- follow.
use kafka_cad.Prelude.{ℕ, String, Option, none, some}
use kafka_cad.Operations.Geom.{Point3f, Line, Plane, Cube, Floats, project_on_line}

pub data RefType : Type 0 where
  drawable existence axis_aligned_bound_box profile_point profile_line profile_plane property
        empty_type :
      RefType

-- A UUID.
abbrev pub ObjId : Type 0
ObjId = String

pub record RefId : Type 0 where
  pub id : ObjId
  pub ref_type : RefType
  pub index : ℕ

pub record Reference : Type 0 where
  pub owner : RefId
  pub other : RefId

-- `Json` is the value of a property.
pub data RefResult (F Json : Type 0) : Type 0 where
  empty_result : RefResult F Json
  point : Point3f F → RefResult F Json
  line : Line F → RefResult F Json
  plane : Plane F → RefResult F Json
  cube : Cube F → RefResult F Json
  property_value : Json → RefResult F Json

module _ {F Json : Type 0} where
  -- AsRefResult for Point3f and Plane.
  unfoldable pub point_from_result : RefResult F Json → Option (Point3f F)
  point_from_result (point pt) = some pt
  point_from_result _ = none

  unfoldable pub plane_from_result : RefResult F Json → Option (Plane F)
  plane_from_result (plane p) = some p
  plane_from_result _ = none

  unfoldable pub cube_from_result : RefResult F Json → Option (Cube F)
  cube_from_result (cube c) = some c
  cube_from_result _ = none

-- RefResult::distance2, of the results that are geometry.
pub distance2 : (fl : Floats) → RefResult fl.F fl.Json → Point3f fl.F → Option fl.F
distance2 fl (point pt) in_pt = some (fl.distance2 pt in_pt)
distance2 fl (line l) in_pt = some (fl.distance2 (project_on_line fl l.pt_1 l.pt_2 in_pt) in_pt)
distance2 fl (plane p) in_pt = some (fl.distance2 p.pt_1 in_pt)
distance2 fl (cube c) in_pt = some (fl.distance2 c.bottom_left in_pt)
distance2 fl (property_value _) in_pt = none
distance2 fl empty_result in_pt = none

pub record UpdatableInfo (T : Type 0) : Type 0 where
  pub refer : Option RefId
  pub info : T

abbrev pub new_info : {T : Type 0} → T → UpdatableInfo T
new_info info = record { refer = none; info = info }

module _ {F Json T : Type 0} (from_result : RefResult F Json → Option T) where
  unfoldable pub update : Option (RefResult F Json) → UpdatableInfo T → UpdatableInfo T
  update none u = record u { refer = none }
  update (some result) u = elim (from_result result) [
    | none ↦ u
    | some info ↦ record u { info = info }
  ]

  unfoldable pub set_reference : RefResult F Json → RefId → UpdatableInfo T → UpdatableInfo T
  set_reference result refer u = elim (from_result result) [
    | none ↦ u
    | some info ↦ record { refer = some refer; info = info }
  ]
