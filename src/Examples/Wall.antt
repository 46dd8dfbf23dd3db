-- ===== src/Examples/Wall.antt =====
-- The theorems on walls at a wall with a deleted opening and one that follows a door.
use kafka_cad.Prelude.{ℕ, ◌+◌, ◌-◌, ◌*◌, ◌≡◌, none, some, [], ◌∷◌, ltb}
use kafka_cad.Operations.Geom.{Point3f, Plane, Floats}
use kafka_cad.Operations.References.{profile_point, profile_plane, RefId, point, plane}
use kafka_cad.Operations.Wall.{Wall, get_refs}
use kafka_cad.Operations.Wall.Edits.{set_ref, delete_ref}
use kafka_cad.Operations.Wall.Slots
use kafka_cad.Operations.Wall.Slots.{set_slot}

-- Numbers in place of floats.
abbrev pub floats : Floats
floats = record {
  F = ℕ;
  Json = ℕ;
  zero_f = 0;
  add_f = λ a b. a + b;
  sub_f = λ a b. a - b;
  mul_f = λ a b. a * b;
  less = λ a b. ltb a b;
  perp = λ v. v;
  one_f = 1;
  max_f = 1000000;
  div_f = λ a b. a;
  sqrt_f = λ a. a;
  magnitude = λ v. v.x + v.y + v.z;
  magnitude2 = λ v. v.x * v.x + v.y * v.y + v.z * v.z;
  distance2 =
      λ a b. (b.x - a.x + (a.x - b.x)) + (b.y - a.y + (a.y - b.y)) + (b.z - a.z + (a.z - b.z));
  normalize = λ v. v;
  project_on = λ v dir. v;
  TransMat = ℕ;
  identity_mat = 0;
  transform_point = λ m p. p;
  concat = λ a b. a + b;
  from_translation = λ v. v.x;
}

abbrev corner : Point3f ℕ
corner = record { x = 0; y = 0; z = 0 }

abbrev door_plane : Plane ℕ
door_plane = record {
  pt_1 = corner;
  pt_2 = record corner { x = 2 };
  pt_3 = record corner { z = 3 };
}

abbrev door : RefId
door = record { id = "door"; ref_type = profile_plane; index = 0 }

abbrev pub wall : Wall ℕ
wall = record {
  first_pt = record { refer = none; info = corner };
  second_pt = record { refer = none; info = record corner { x = 9 } };
  width = 1;
  height = 4;
  openings = none ∷ some (record { refer = some door; info = door_plane }) ∷ [];
  id = "wall";
}

get_refs-delete_ref_example :
    get_refs floats (delete_ref floats profile_plane 1 wall)
    ≡ set_slot profile_plane 1 none (get_refs floats wall)
get_refs-delete_ref_example = Slots.get_refs-delete_ref floats profile_plane 1 wall

get_refs-set_ref_example :
    ((p : Point3f ℕ)
      → get_refs floats (set_ref floats profile_point 0 (point p) door wall)
        ≡ set_slot profile_point 0
            (some (record {
              owner = record { id = "wall"; ref_type = profile_point; index = 0 };
              other = door;
            }))
            (get_refs floats wall))
    × ((p : Plane ℕ)
        → get_refs floats (set_ref floats profile_plane 0 (plane p) door wall)
          ≡ set_slot profile_plane 0
              (some (record {
                owner = record { id = "wall"; ref_type = profile_plane; index = 0 };
                other = door;
              }))
              (get_refs floats wall))
get_refs-set_ref_example = Slots.get_refs-set_ref floats 0 door wall
