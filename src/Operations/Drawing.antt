-- ===== src/Operations/Drawing.antt =====
-- The 2D drawings of operations/obj-traits/src/geom.rs, and the trait DrawingViews of
-- operations/obj-traits/src/lib.rs.
use kafka_cad.Prelude.{
  ℕ, String, Bool, false, Option, none, some, List, [], ◌∷◌, map, ◌||◌, if◌then◌else◌,
}
use kafka_cad.Operations.Geom.{Point2f, Point3f, Floats, add_pt, sub_pt, offset_line}

-- f32, angles, and what else of f64 and cgmath the drawings use. `rotate_z` is
-- Matrix3::from_angle_z.
pub record Graphics (fl : Floats) : Type 1 where
  pub F32 : Type 0
  pub one_32 : F32
  pub Radians : Type 0
  pub zero_angle : Radians
  pub frac_pi_2 : Radians
  pub rotate_z : Radians → Point3f fl.F → Point3f fl.F
  pub distance_2d : Point2f fl.F → Point2f fl.F → fl.F
  pub two_f : fl.F
  pub is_nan : fl.F → Bool

pub record Rgba (F32 : Type 0) : Type 0 where
  pub r : ℕ
  pub g : ℕ
  pub b : ℕ
  pub a : F32

pub data FillType (F32 : Type 0) : Type 0 where
  solid : Rgba F32 → FillType F32
  hatch : String → FillType F32

pub data LineType : Type 0 where
  solid : LineType
  dashed : String → LineType

pub record Line2d (F : Type 0) : Type 0 where
  pub first : Point2f F
  pub second : Point2f F

pub record Arc2d (F Radians : Type 0) : Type 0 where
  pub center : Point2f F
  pub radius : F
  pub start_angle : Radians
  pub end_angle : Radians

pub record Rect2d (F : Type 0) : Type 0 where
  pub bottom_left : Point2f F
  pub top_right : Point2f F

pub data Element2d (F Radians : Type 0) : Type 0 where
  line : Line2d F → Element2d F Radians
  arc : Arc2d F Radians → Element2d F Radians
  rect : Rect2d F → Element2d F Radians
  poly : List (Point2f F) → Element2d F Radians

pub record DrawElement2d (F Radians F32 : Type 0) : Type 0 where
  pub element : Element2d F Radians
  pub line_thickness : F32
  pub line_color : Rgba F32
  pub line_type : LineType
  pub fill_type : FillType F32

module _ {F : Type 0} where
  unfoldable pub x_y : Point3f F → Point2f F
  x_y pt = record { x = pt.x; y = pt.y }

  unfoldable pub x_z : Point3f F → Point2f F
  x_z pt = record { x = pt.x; y = pt.z }

  unfoldable pub y_z : Point3f F → Point2f F
  y_z pt = record { x = pt.y; y = pt.z }

-- The points of a wall or a door: those of its base, and above them.
pub record Points (F : Type 0) : Type 0 where
  pub first : Point3f F
  pub second : Point3f F
  pub third : Point3f F
  pub fourth : Point3f F
  pub fifth : Point3f F
  pub sixth : Point3f F
  pub seventh : Point3f F
  pub eighth : Point3f F

unfoldable pub get_points : (fl : Floats) → Point3f fl.F → Point3f fl.F → fl.F → fl.F → Points fl.F
get_points fl pt_1 pt_2 width height =
    let c = offset_line fl pt_1 pt_2 width in
    let vert_offset : Point3f fl.F = record { x = fl.zero_f; y = fl.zero_f; z = height } in
    record {
      first = c.first;
      second = c.second;
      third = c.third;
      fourth = c.fourth;
      fifth = add_pt fl c.first vert_offset;
      sixth = add_pt fl c.second vert_offset;
      seventh = add_pt fl c.third vert_offset;
      eighth = add_pt fl c.fourth vert_offset;
    }

module _ {fl : Floats} (g : Graphics fl) where
  abbrev pub Drawn : Type 0
  Drawn = DrawElement2d fl.F g.Radians g.F32

  unfoldable pub new_default : Element2d fl.F g.Radians → Drawn
  new_default element = record {
    element = element;
    line_thickness = g.one_32;
    line_color = record { r = 0; g = 0; b = 0; a = g.one_32 };
    line_type = LineType.solid;
    fill_type = FillType.solid (record { r = 255; g = 255; b = 255; a = g.one_32 });
  }

  pub rotate_point_through_angle_2d : Point3f fl.F → Point3f fl.F → g.Radians → Point3f fl.F
  rotate_point_through_angle_2d origin point angle =
      add_pt fl origin (g.rotate_z angle (sub_pt fl point origin))

  -- average_of_list, of two numbers.
  unfoldable pub average : fl.F → fl.F → fl.F
  average a b = fl.div_f (fl.add_f a b) g.two_f

  -- Vec::sort_by: `before k j` says that k comes strictly before j. It keeps the order of equals.
  module _ {A : Type 0} (before : fl.F → fl.F → Bool) where
    unfoldable pub insert : fl.F × A → List (fl.F × A) → List (fl.F × A)
    insert x [] = x ∷ []
    insert x (y ∷ ys) = if before y.0 x.0 then y ∷ insert x ys else x ∷ y ∷ ys

    unfoldable pub sort : List (fl.F × A) → List (fl.F × A)
    sort [] = []
    sort (x ∷ xs) = insert x (sort xs)

  unfoldable pub any_nan : {A : Type 0} → List (fl.F × A) → Bool
  any_nan [] = false
  any_nan (x ∷ xs) = g.is_nan x.0 || any_nan xs

  -- With the comparison by partial_cmp and unwrap, which panics on a NaN.
  unfoldable pub sort_by :
      {A : Type 0} → (fl.F → fl.F → Bool) → List (fl.F × A) → Option (List (fl.F × A))
  sort_by before xs = if any_nan xs then none else some (sort before xs)

  abbrev pub greatest_first : fl.F → fl.F → Bool
  greatest_first k j = fl.less j k

  abbrev pub least_first : fl.F → fl.F → Bool
  least_first k j = fl.less k j

  -- The four faces seen along an axis, with where they are on it.
  unfoldable pub faces :
      (Point3f fl.F → Point2f fl.F)
      → (Point3f fl.F → fl.F)
      → Points fl.F
      → List (fl.F × Rect2d fl.F)
  faces flat depth p =
      (
        average (depth p.first) (depth p.sixth),
        record { bottom_left = flat p.first; top_right = flat p.sixth },
      )
      ∷ (
        average (depth p.fourth) (depth p.fifth),
        record { bottom_left = flat p.fourth; top_right = flat p.fifth },
      )
      ∷ (
        average (depth p.second) (depth p.seventh),
        record { bottom_left = flat p.second; top_right = flat p.seventh },
      )
      ∷ (
        average (depth p.third) (depth p.eighth),
        record { bottom_left = flat p.third; top_right = flat p.eighth },
      )
      ∷ []

  abbrev pub rects : List (fl.F × Rect2d fl.F) → List Drawn
  rects sorted = map (λ face. new_default (Element2d.rect face.1)) sorted

  unfoldable pub side_view :
      (Point3f fl.F → Point2f fl.F)
      → (Point3f fl.F → fl.F)
      → (fl.F → fl.F → Bool)
      → Points fl.F
      → Option (List Drawn)
  side_view flat depth before p = elim (sort_by before (faces flat depth p)) [
    | none ↦ none
    | some sorted ↦ some (rects sorted)
  ]
