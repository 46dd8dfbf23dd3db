-- ===== src/Examples/Drawing.antt =====
-- The theorem on drawings at a wall.
use kafka_cad.Prelude.{false}
use kafka_cad.Operations.Drawing.{Graphics}
use kafka_cad.Operations.Views.Depth
use kafka_cad.Examples.Wall.{floats}

abbrev graphics : Graphics floats
graphics = record {
  F32 = floats.F;
  one_32 = 1;
  Radians = floats.F;
  zero_angle = 0;
  frac_pi_2 = 90;
  rotate_z = λ angle v. v;
  distance_2d = λ a b. a.x;
  two_f = 2;
  is_nan = λ a. false;
}
