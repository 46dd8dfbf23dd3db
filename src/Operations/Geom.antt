-- ===== src/Operations/Geom.antt =====
-- The part of operations/obj-traits/src/geom.rs that the objects use. The floats and the vector
-- operations of cgmath are parameters.
use kafka_cad.Prelude.{Bool, List, [], ◌∷◌, if◌then◌else◌}

pub record Point2f (F : Type 0) : Type 0 where
  pub x : F
  pub y : F

pub record Point3f (F : Type 0) : Type 0 where
  pub x : F
  pub y : F
  pub z : F

pub record Line (F : Type 0) : Type 0 where
  pub pt_1 : Point3f F
  pub pt_2 : Point3f F

pub record Plane (F : Type 0) : Type 0 where
  pub pt_1 : Point3f F
  pub pt_2 : Point3f F
  pub pt_3 : Point3f F

pub record Cube (F : Type 0) : Type 0 where
  pub bottom_left : Point3f F
  pub top_right : Point3f F

-- f64, the values of properties, and what is used of cgmath: `perp` is
-- `dir.cross(unit_z).normalize()`, and `concat` is `concat_self`. `less` is false on a NaN, and
-- `max_f` is f64::MAX.
pub record Floats : Type 1 where
  pub F : Type 0
  pub Json : Type 0
  pub zero_f : F
  pub add_f : F → F → F
  pub sub_f : F → F → F
  pub mul_f : F → F → F
  pub less : F → F → Bool
  pub perp : Point3f F → Point3f F
  pub one_f : F
  pub max_f : F
  pub div_f : F → F → F
  pub sqrt_f : F → F
  pub magnitude : Point3f F → F
  pub magnitude2 : Point3f F → F
  pub distance2 : Point3f F → Point3f F → F
  pub normalize : Point3f F → Point3f F
  pub project_on : Point3f F → Point3f F → Point3f F
  pub TransMat : Type 0
  pub identity_mat : TransMat
  pub transform_point : TransMat → Point3f F → Point3f F
  pub concat : TransMat → TransMat → TransMat
  pub from_translation : Point3f F → TransMat

module _ (fl : Floats) where
  pub add_pt : Point3f fl.F → Point3f fl.F → Point3f fl.F
  add_pt p v = record { x = fl.add_f p.x v.x; y = fl.add_f p.y v.y; z = fl.add_f p.z v.z }

  pub sub_pt : Point3f fl.F → Point3f fl.F → Point3f fl.F
  sub_pt p v = record { x = fl.sub_f p.x v.x; y = fl.sub_f p.y v.y; z = fl.sub_f p.z v.z }

  pub scale : Point3f fl.F → fl.F → Point3f fl.F
  scale v k = record { x = fl.mul_f v.x k; y = fl.mul_f v.y k; z = fl.mul_f v.z k }

  -- minimum_of_list and maximum_of_list, of a list that is not empty.
  pub minimum_of_list : fl.F → List fl.F → fl.F
  minimum_of_list acc [] = acc
  minimum_of_list acc (x ∷ xs) = minimum_of_list (if fl.less x acc then x else acc) xs

  pub maximum_of_list : fl.F → List fl.F → fl.F
  maximum_of_list acc [] = acc
  maximum_of_list acc (x ∷ xs) = maximum_of_list (if fl.less acc x then x else acc) xs

  pub record Corners : Type 0 where
    pub first : Point3f fl.F
    pub second : Point3f fl.F
    pub third : Point3f fl.F
    pub fourth : Point3f fl.F

  pub offset_line : Point3f fl.F → Point3f fl.F → fl.F → Corners
  offset_line first_pt second_pt width =
      let offset = scale (fl.perp (sub_pt second_pt first_pt)) width in
      record {
        first = add_pt first_pt offset;
        second = add_pt second_pt offset;
        third = sub_pt second_pt offset;
        fourth = sub_pt first_pt offset;
      }

  pub get_axis_aligned_bound_box : Point3f fl.F → Point3f fl.F → fl.F → fl.F → Cube fl.F
  get_axis_aligned_bound_box first_pt second_pt width height =
      let c = offset_line first_pt second_pt width in
      let vert_offset : Point3f fl.F = record { x = fl.zero_f; y = fl.zero_f; z = height } in
      let fifth = add_pt c.first vert_offset in
      let sixth = add_pt c.second vert_offset in
      let seventh = add_pt c.third vert_offset in
      let eighth = add_pt c.fourth vert_offset in
      let x_vals =
        c.second.x ∷ c.third.x ∷ c.fourth.x ∷ fifth.x ∷ sixth.x ∷ seventh.x ∷ eighth.x ∷ [] in
      let y_vals =
        c.second.y ∷ c.third.y ∷ c.fourth.y ∷ fifth.y ∷ sixth.y ∷ seventh.y ∷ eighth.y ∷ [] in
      let z_vals =
        c.second.z ∷ c.third.z ∷ c.fourth.z ∷ fifth.z ∷ sixth.z ∷ seventh.z ∷ eighth.z ∷ [] in
      record {
        bottom_left = record {
          x = minimum_of_list c.first.x x_vals;
          y = minimum_of_list c.first.y y_vals;
          z = minimum_of_list c.first.z z_vals;
        };
        top_right = record {
          x = maximum_of_list c.first.x x_vals;
          y = maximum_of_list c.first.y y_vals;
          z = maximum_of_list c.first.z z_vals;
        };
      }

  pub apply_transform : fl.TransMat → Cube fl.F → Cube fl.F
  apply_transform mat box = record {
    bottom_left = fl.transform_point mat box.bottom_left;
    top_right = fl.transform_point mat box.top_right;
  }

  pub project_on_line : Point3f fl.F → Point3f fl.F → Point3f fl.F → Point3f fl.F
  project_on_line first second project =
      let dir = sub_pt second first in add_pt first (fl.project_on (sub_pt project first) dir)

  -- Interp::new: a value between 0 and 1.
  unfoldable pub new_interp : fl.F → fl.F
  new_interp in_val =
      let capped = if fl.less fl.one_f in_val then fl.one_f else in_val in
      if fl.less capped fl.zero_f then fl.zero_f else capped

  unfoldable pub get_interp_along_line : Point3f fl.F → Point3f fl.F → Point3f fl.F → fl.F
  get_interp_along_line first second project =
      let dir = sub_pt second first in
      let proj_vec = fl.project_on (sub_pt project first) dir in
      new_interp (fl.sqrt_f (fl.div_f (fl.magnitude2 proj_vec) (fl.magnitude2 dir)))
