-- ===== src/Operations/Views/Depth.antt =====
-- The order in which the side views of a wall or a door draw its faces.
use mathlib.Core.List.{Perm}
use mathlib.Core.List.Perm
use kafka_cad.Prelude.{◌≡◌, Bool, true, false, Option, some, List, [], ◌∷◌}
use kafka_cad.Operations.Geom.{Point2f, Point3f, Floats}
use kafka_cad.Operations.Wall.{Wall}
use kafka_cad.Operations.Drawing.{Graphics, Drawn, Rect2d, Points, faces, rects}

-- What `<` of f64 has.
pub record SortOrder {fl : Floats} (g : Graphics fl) : Type 0 where
  pub asymmetric : (a b : fl.F) → fl.less a b ≡ true → fl.less b a ≡ false
  pub not_less_trans :
      (a b c : fl.F)
      → g.is_nan b ≡ false
      → fl.less a b ≡ false
      → fl.less b c ≡ false
      → fl.less a c ≡ false

module _ {K A : Type 0} where
  -- None of the list comes strictly before the key.
  abbrev pub AreAfter : (K → K → Bool) → K → List (K × A) → Type 0
  AreAfter before k [] = Unit {0}
  AreAfter before k (x ∷ xs) = (before x.0 k ≡ false) × AreAfter before k xs

  -- None comes strictly before an earlier one.
  abbrev pub IsOrdered : (K → K → Bool) → List (K × A) → Type 0
  IsOrdered before [] = Unit {0}
  IsOrdered before (x ∷ xs) = AreAfter before x.0 xs × IsOrdered before xs

-- A strict order on the keys that are numbers.
pub record IsBefore {fl : Floats} (g : Graphics fl) (before : fl.F → fl.F → Bool) : Type 0 where
  pub asym : (a b : fl.F) → before a b ≡ true → before b a ≡ false
  pub not_trans :
      (a b c : fl.F)
      → g.is_nan b ≡ false
      → before a b ≡ false
      → before b c ≡ false
      → before a c ≡ false

module _ {fl : Floats} (g : Graphics fl) where
  -- The view draws the faces, none behind one that is drawn before it.
  abbrev pub IsDrawn :
      (Point3f fl.F → Point2f fl.F)
      → (Point3f fl.F → fl.F)
      → (fl.F → fl.F → Bool)
      → Points fl.F
      → Option (List (Drawn g))
      → Type 0
  IsDrawn flat depth before p view =
      (drawn : List (fl.F × Rect2d fl.F)) × (view ≡ some (rects g drawn))
      × Perm drawn (faces g flat depth p)
      × IsOrdered before drawn
