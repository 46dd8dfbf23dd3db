-- ===== src/Examples/Boxes.antt =====
-- Codes of the objects of operations/obj-defs, and the packages that the operations use.
use mathlib.Core.List.{append-nil}
use kafka_cad.Prelude.{
  ℕ, zero, suc, ◌≡◌, refl, sym, ap, ◌∙◌, Option, none, some, [], ◌∷◌, ◌++◌, get_elem?,
}
use kafka_cad.State.{Bytes}
use kafka_cad.Redis.{Codec}
use kafka_cad.Operations.Geom.{Point2f, Point3f, Line, Plane, Cube}
use kafka_cad.Operations.References.{
  RefType, drawable, existence, axis_aligned_bound_box, profile_point, profile_line, profile_plane,
  property, empty_type, RefId, UpdatableInfo,
}
use kafka_cad.Operations.LineSeg.{RefLineSeg}
use kafka_cad.Operations.Wall.{Wall}
use kafka_cad.Operations.Door.{Door}
use kafka_cad.Operations.Sheet.{Sheet}
use kafka_cad.Operations.Viewport.{Viewport, ViewType}
use kafka_cad.Operations.VisibilityGroup.{VisibilityGroup}
use kafka_cad.Operations.SymbolDef.{SymbolDef}
use kafka_cad.Operations.SymbolInstance.{SymbolInstance}
use kafka_cad.Operations.DataBox.{
  DataBox, wall, door, sheet, viewport, visibility_group, symbol_def, symbol_instance,
}
use kafka_cad.Operations.Convert.{Packages, proto_types}
use kafka_cad.Examples.Coders.{Coder, then_get, number, renamed, pair, option, list, string}
use kafka_cad.Examples.Wall.{floats}
use kafka_cad.Examples.Submit.{index_map}

abbrev point2 : Coder (Point2f ℕ)
point2 =
    renamed (pair number number) (λ r. (r.x, r.y)) (λ t. record { x = t.0; y = t.1 }) (λ r. refl)

abbrev point3 : Coder (Point3f ℕ)
point3 =
    renamed (pair number (pair number number)) (λ r. (r.x, (r.y, r.z)))
      (λ t. record { x = t.0; y = t.1.0; z = t.1.1 }) (λ r. refl)

abbrev line_coder : Coder (Line ℕ)
line_coder =
    renamed (pair point3 point3) (λ r. (r.pt_1, r.pt_2)) (λ t. record { pt_1 = t.0; pt_2 = t.1 })
      (λ r. refl)

abbrev plane_coder : Coder (Plane ℕ)
plane_coder =
    renamed (pair point3 (pair point3 point3)) (λ r. (r.pt_1, (r.pt_2, r.pt_3)))
      (λ t. record { pt_1 = t.0; pt_2 = t.1.0; pt_3 = t.1.1 }) (λ r. refl)

abbrev cube_coder : Coder (Cube ℕ)
cube_coder =
    renamed (pair point3 point3) (λ r. (r.bottom_left, r.top_right))
      (λ t. record { bottom_left = t.0; top_right = t.1 }) (λ r. refl)

-- The place of a type in the enum.
abbrev place : RefType → ℕ
place existence = 0
place drawable = 1
place axis_aligned_bound_box = 2
place profile_point = 3
place profile_line = 4
place profile_plane = 5
place property = 6
place empty_type = 7

abbrev typed : Option RefType → Bytes → Option (RefType × Bytes)
typed none rest = none
typed (some t) rest = some (t, rest)

pub place_lem : (t : RefType) → get_elem? proto_types (place t) ≡ some t
place_lem drawable = refl
place_lem existence = refl
place_lem axis_aligned_bound_box = refl
place_lem profile_point = refl
place_lem profile_line = refl
place_lem profile_plane = refl
place_lem property = refl
place_lem empty_type = refl

abbrev ref_type_coder : Coder RefType
ref_type_coder = record {
  put = λ t. place t ∷ [];
  get = λ bytes. then_get (number.get bytes) (λ n rest. typed (get_elem? proto_types n) rest);
  get-put = λ t rest. rw (place_lem t);
}

abbrev ref_id_coder : Coder (RefId)
ref_id_coder =
    renamed (pair string (pair ref_type_coder number)) (λ r. (r.id, (r.ref_type, r.index)))
      (λ t. record { id = t.0; ref_type = t.1.0; index = t.1.1 }) (λ r. refl)

abbrev info_coder : {T : Type 0} → Coder T → Coder (UpdatableInfo T)
info_coder c =
    renamed (pair (option ref_id_coder) c) (λ r. (r.refer, r.info))
      (λ t. record { refer = t.0; info = t.1 }) (λ r. refl)

abbrev seg_coder : Coder (RefLineSeg ℕ)
seg_coder =
    renamed (pair (option ref_id_coder) (pair line_coder (pair number number)))
      (λ r. (r.refer, (r.line, (r.length, r.interp))))
      (λ t. record { refer = t.0; line = t.1.0; length = t.1.1.0; interp = t.1.1.1 }) (λ r. refl)

abbrev wall_coder : Coder (Wall ℕ)
wall_coder =
    renamed
      (pair (info_coder point3) (
        pair (info_coder point3)
          (pair number (pair number (pair (list (option (info_coder plane_coder))) string)))))
      (λ r. (r.first_pt, (r.second_pt, (r.width, (r.height, (r.openings, r.id))))))
      (λ t. record {
        first_pt = t.0;
        second_pt = t.1.0;
        width = t.1.1.0;
        height = t.1.1.1.0;
        openings = t.1.1.1.1.0;
        id = t.1.1.1.1.1;
      })
      (λ r. refl)

abbrev door_coder : Coder (Door ℕ)
door_coder =
    renamed (pair string (pair seg_coder (pair number number)))
      (λ r. (r.id, (r.dir, (r.width, r.height))))
      (λ t. record { id = t.0; dir = t.1.0; width = t.1.1.0; height = t.1.1.1 }) (λ r. refl)

abbrev sheet_coder : Coder (Sheet ℕ)
sheet_coder =
    renamed (pair string (pair string point2)) (λ r. (r.id, (r.name, r.print_size)))
      (λ t. record { id = t.0; name = t.1.0; print_size = t.1.1 }) (λ r. refl)

unfoldable pub put_view : ViewType ℕ → Bytes
put_view ViewType.top = 0 ∷ []
put_view ViewType.front = 1 ∷ []
put_view ViewType.left = 2 ∷ []
put_view ViewType.right = 3 ∷ []
put_view ViewType.back = 4 ∷ []
put_view ViewType.bottom = 5 ∷ []
put_view (ViewType.custom camera_pos target) = 6 ∷ (pair point3 point3).put (camera_pos, target)

unfoldable pub get_view : Bytes → Option (ViewType ℕ × Bytes)
get_view [] = none
get_view (zero ∷ rest) = some (ViewType.top, rest)
get_view (suc zero ∷ rest) = some (ViewType.front, rest)
get_view (suc (suc zero) ∷ rest) = some (ViewType.left, rest)
get_view (suc (suc (suc zero)) ∷ rest) = some (ViewType.right, rest)
get_view (suc (suc (suc (suc zero))) ∷ rest) = some (ViewType.back, rest)
get_view (suc (suc (suc (suc (suc zero)))) ∷ rest) = some (ViewType.bottom, rest)
get_view (suc (suc (suc (suc (suc (suc _))))) ∷ rest) =
    then_get ((pair point3 point3).get rest) (λ p rest'. some (ViewType.custom p.0 p.1, rest'))

pub get-put_view : (v : ViewType ℕ) (rest : Bytes) → get_view (put_view v ++ rest) ≡ some (v, rest)
unfolding put_view get_view
get-put_view ViewType.top rest = refl
get-put_view ViewType.front rest = refl
get-put_view ViewType.left rest = refl
get-put_view ViewType.right rest = refl
get-put_view ViewType.back rest = refl
get-put_view ViewType.bottom rest = refl
get-put_view (ViewType.custom camera_pos target) rest =
    ap (λ o. then_get o (λ p rest'. some (ViewType.custom p.0 p.1, rest')))
      ((pair point3 point3).get-put (camera_pos, target) rest)

abbrev view_coder : Coder (ViewType ℕ)
view_coder = record { put = put_view; get = get_view; get-put = get-put_view }

abbrev viewport_coder : Coder (Viewport ℕ)
viewport_coder =
    renamed (pair string (pair view_coder (pair (option string) (pair point2 number))))
      (λ r. (r.id, (r.view, (r.sheet, (r.origin, r.scale)))))
      (λ t. record {
        id = t.0;
        view = t.1.0;
        sheet = t.1.1.0;
        origin = t.1.1.1.0;
        scale = t.1.1.1.1;
      })
      (λ r. refl)

abbrev group_coder : Coder (VisibilityGroup)
group_coder =
    renamed (pair string (list (option ref_id_coder))) (λ r. (r.id, r.children))
      (λ t. record { id = t.0; children = t.1 }) (λ r. refl)

abbrev def_coder : Coder (SymbolDef ℕ)
def_coder =
    renamed (pair string (pair string (pair number cube_coder)))
      (λ r. (r.id, (r.sym_file, (r.change, r.bbox))))
      (λ t. record { id = t.0; sym_file = t.1.0; change = t.1.1.0; bbox = t.1.1.1 }) (λ r. refl)

abbrev instance_coder : Coder (SymbolInstance ℕ ℕ)
instance_coder =
    renamed (pair string (pair (info_coder cube_coder) number)) (λ r. (r.id, (r.bbox, r.transform)))
      (λ t. record { id = t.0; bbox = t.1.0; transform = t.1.1 }) (λ r. refl)

unfoldable pub put_box : DataBox floats → Bytes
put_box (wall o) = 0 ∷ wall_coder.put o
put_box (door o) = 1 ∷ door_coder.put o
put_box (sheet o) = 2 ∷ sheet_coder.put o
put_box (viewport o) = 3 ∷ viewport_coder.put o
put_box (visibility_group o) = 4 ∷ group_coder.put o
put_box (symbol_def o) = 5 ∷ def_coder.put o
put_box (symbol_instance o) = 6 ∷ instance_coder.put o

unfoldable pub get_box : Bytes → Option (DataBox floats × Bytes)
get_box [] = none
get_box (zero ∷ rest) = then_get (wall_coder.get rest) (λ o rest'. some (wall o, rest'))
get_box (suc zero ∷ rest) = then_get (door_coder.get rest) (λ o rest'. some (door o, rest'))
get_box (suc (suc zero) ∷ rest) = then_get (sheet_coder.get rest) (λ o rest'. some (sheet o, rest'))
get_box (suc (suc (suc zero)) ∷ rest) =
    then_get (viewport_coder.get rest) (λ o rest'. some (viewport o, rest'))
get_box (suc (suc (suc (suc zero))) ∷ rest) =
    then_get (group_coder.get rest) (λ o rest'. some (visibility_group o, rest'))
get_box (suc (suc (suc (suc (suc zero)))) ∷ rest) =
    then_get (def_coder.get rest) (λ o rest'. some (symbol_def o, rest'))
get_box (suc (suc (suc (suc (suc (suc _))))) ∷ rest) =
    then_get (instance_coder.get rest) (λ o rest'. some (symbol_instance o, rest'))

get-put_box : (b : DataBox floats) (rest : Bytes) → get_box (put_box b ++ rest) ≡ some (b, rest)
unfolding put_box get_box
get-put_box (wall o) rest = rw (wall_coder.get-put o rest)
get-put_box (door o) rest = rw (door_coder.get-put o rest)
get-put_box (sheet o) rest = rw (sheet_coder.get-put o rest)
get-put_box (viewport o) rest = rw (viewport_coder.get-put o rest)
get-put_box (visibility_group o) rest = rw (group_coder.get-put o rest)
get-put_box (symbol_def o) rest = rw (def_coder.get-put o rest)
get-put_box (symbol_instance o) rest = rw (instance_coder.get-put o rest)

abbrev pub read_box : Option (DataBox floats × Bytes) → Option (DataBox floats)
read_box none = none
read_box (some (b, rest)) = some b

pub read_box_lem : (b : DataBox floats) → read_box (get_box (put_box b)) ≡ some b
read_box_lem b =
    ap (λ l. read_box (get_box l)) (sym (append-nil (put_box b))) ∙ ap read_box (get-put_box b [])

abbrev pub boxes : Codec Bytes (DataBox floats)
boxes = record {
  encode = put_box;
  decode = λ bytes. read_box (get_box bytes);
  decode-encode = read_box_lem;
}

-- Every text is an id.
abbrev pub packages : Packages floats
packages = record {
  parse_str = λ id. some id;
  to_string = λ id. id;
  parse_str-to_string = λ id. refl;
  boxes = boxes;
  index_map = index_map;
}
