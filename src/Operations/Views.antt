-- ===== src/Operations/Views.antt =====
-- DrawingViews for the walls and doors of operations/obj-defs/src, and get_views of
-- operations/obj-traits/src/lib.rs. A panic is none.
pub mod Depth
use kafka_cad.Prelude.{Bool, true, false, Option, none, some, List, [], ◌∷◌}
use kafka_cad.Operations.Geom.{Point3f, Floats, offset_line}
use kafka_cad.Operations.Wall.{Wall}
use kafka_cad.Operations.Door.{Door}
use kafka_cad.Operations.Drawing.{
  Graphics, Drawn, Line2d, Arc2d, Rect2d, Element2d, Points, get_points, x_y, x_z, y_z, new_default,
  rotate_point_through_angle_2d, greatest_first, least_first, side_view,
}

pub record ViewFlags : Type 0 where
  pub top : Bool
  pub front : Bool
  pub left : Bool
  pub right : Bool
  pub back : Bool
  pub bottom : Bool

-- The trait DrawingViews, of drawings that are lists of elements.
pub record DrawingViews (Drawing : Type 0) : Type 0 where
  pub get_top : Option Drawing
  pub get_front : Option Drawing
  pub get_left : Option Drawing
  pub get_right : Option Drawing
  pub get_back : Option Drawing
  pub get_bottom : Option Drawing

pub record DrawingRepresentations (Drawing : Type 0) : Type 0 where
  pub top : Option Drawing
  pub front : Option Drawing
  pub left : Option Drawing
  pub right : Option Drawing
  pub back : Option Drawing
  pub bottom : Option Drawing

infixl 5 ◌>>=◌
abbrev ◌>>=◌ : {A B : Type 0} → Option A → (A → Option B) → Option B
none >>= f = none
some a >>= f = f a

module _ {Drawing : Type 0} where
  pub if_flagged : Bool → Option Drawing → Option (Option Drawing)
  if_flagged false drawing = some none
  if_flagged true none = none
  if_flagged true (some drawing) = some (some drawing)

  pub get_views : DrawingViews Drawing → ViewFlags → Option (DrawingRepresentations Drawing)
  get_views views flags = do
    top ← if_flagged flags.top views.get_top
    front ← if_flagged flags.front views.get_front
    left ← if_flagged flags.left views.get_left
    right ← if_flagged flags.right views.get_right
    back ← if_flagged flags.back views.get_back
    bottom ← if_flagged flags.bottom views.get_bottom
    some (record {
      top = top;
      front = front;
      left = left;
      right = right;
      back = back;
      bottom = bottom;
    })

module _ {fl : Floats} (g : Graphics fl) where
  abbrev pub depth_x : Point3f fl.F → fl.F
  depth_x pt = pt.x

  abbrev pub depth_y : Point3f fl.F → fl.F
  depth_y pt = pt.y

  unfoldable pub get_wall_points : Wall fl.F → Points fl.F
  get_wall_points w = get_points fl w.first_pt.info w.second_pt.info w.width w.height

  unfoldable pub get_door_points : Door fl.F → Points fl.F
  get_door_points d = get_points fl d.dir.line.pt_1 d.dir.line.pt_2 d.width d.height

  -- Wall::get_top and Wall::get_bottom, which are the same.
  pub wall_top : Wall fl.F → List (Drawn g)
  wall_top w =
      let c = offset_line fl w.first_pt.info w.second_pt.info w.width in
      new_default g (Element2d.rect (record { bottom_left = x_y c.first; top_right = x_y c.third }))
      ∷ []

  unfoldable pub front : Points fl.F → Option (List (Drawn g))
  front p = side_view g x_z depth_y (greatest_first g) p

  unfoldable pub left : Points fl.F → Option (List (Drawn g))
  left p = side_view g y_z depth_x (greatest_first g) p

  unfoldable pub right : Points fl.F → Option (List (Drawn g))
  right p = side_view g y_z depth_x (least_first g) p

  unfoldable pub back : Points fl.F → Option (List (Drawn g))
  back p = side_view g x_z depth_y (least_first g) p

  -- Door::get_top and Door::get_bottom, which are the same.
  pub door_top : Door fl.F → List (Drawn g)
  door_top d =
      let pt_1 = d.dir.line.pt_1 in
      let line_1 : Line2d fl.F = record { first = x_y pt_1; second = x_y d.dir.line.pt_2 } in
      let rotated = rotate_point_through_angle_2d g pt_1 d.dir.line.pt_2 g.frac_pi_2 in
      let line_2 : Line2d fl.F = record { first = x_y pt_1; second = x_y rotated } in
      let swing : Arc2d fl.F g.Radians = record {
        center = x_y pt_1;
        radius = g.distance_2d line_1.first line_1.second;
        start_angle = g.zero_angle;
        end_angle = g.frac_pi_2;
      } in
      new_default g (Element2d.line line_1)
      ∷ new_default g (Element2d.line line_2)
      ∷ new_default g (Element2d.arc swing)
      ∷ []

  unfoldable pub wall_views : Wall fl.F → DrawingViews (List (Drawn g))
  wall_views w =
      let p = get_wall_points w in
      record {
        get_top = some (wall_top w);
        get_front = front p;
        get_left = left p;
        get_right = right p;
        get_back = back p;
        get_bottom = some (wall_top w);
      }

  unfoldable pub door_views : Door fl.F → DrawingViews (List (Drawn g))
  door_views d =
      let p = get_door_points d in
      record {
        get_top = some (door_top d);
        get_front = front p;
        get_left = left p;
        get_right = right p;
        get_back = back p;
        get_bottom = some (door_top d);
      }
