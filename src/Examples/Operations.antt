-- ===== src/Examples/Operations.antt =====
-- The theorems on operations at two walls, of which one follows an end of the other.
use kafka_cad.Prelude.{
  ℕ, String, ◌≡◌, refl, true, false, Option, none, some, List, [], ◌∷◌, map, ltb, arith, ◌⊎◌,
}
use kafka_cad.Prelude.Result.{ok, err}
use kafka_cad.State.{ObjectMsg, add, modify, user_action, ChangeMsg}
use kafka_cad.Maps.{IndexMap, lookup}
use kafka_cad.Operations.Geom.{Point3f}
use kafka_cad.Operations.References.{drawable, profile_point, profile_line, Reference, point, line}
use kafka_cad.Operations.Errors.{obj_wrong_type}
use kafka_cad.Operations.Wall
use kafka_cad.Operations.Wall.{Wall}
use kafka_cad.Operations.Wall.Results.{collect_from}
use kafka_cad.Operations.DataBox.{
  DataBox, wall, visibility_group, data_box, get_id, get_refs, get_result, get_results_for_type,
  get_num_results_for_type, get_available_refs_for_type,
}
use kafka_cad.Operations.DataBox.Laws
use kafka_cad.Operations.Door
use kafka_cad.Operations.Door.{Door}
use kafka_cad.Operations.Door.Bounds
use kafka_cad.Operations.Door.Bounds.{UnitOrder, IsUnit, made, next, set}
use kafka_cad.Operations.Joins.{get_closest_ref, get_closest_result}
use kafka_cad.Operations.Joins.Nearest
use kafka_cad.Operations.Joins.Nearest.{FloatOrder, IsNearest, ref_distances, result_distances}
use kafka_cad.Operations.UpdateAll.{get_ref_result, update_all}
use kafka_cad.Operations.UpdateAll.Follows
use kafka_cad.Operations.Ops.{remove_objs_from_visibility_group}
use kafka_cad.Operations.Ops.Groups
use kafka_cad.Operations.Ops.Groups.{unlinked, without, group_of, is_group}
use kafka_cad.Operations.VisibilityGroup.{VisibilityGroup}
use kafka_cad.Operations.Convert.{from_ref_msgs}
use kafka_cad.Operations.Convert.Changes.{AreReadAs, AreSentAs}
use kafka_cad.Operations.Server.{update_objects}
use kafka_cad.Operations.Server.Sent
use kafka_cad.Operations.Server.Sent.{reference_msg_of}
use kafka_cad.Examples.Wall.{floats}
use kafka_cad.Examples.Boxes.{packages, boxes, read_box_lem}

less_irreflexive : (a : ℕ) → ltb a a ≡ false
less_irreflexive a = ground arith

less_transitive : (a b c : ℕ) → ltb a b ≡ true → ltb b c ≡ true → ltb a c ≡ true
less_transitive a b c p q = ground arith

abbrev order : FloatOrder floats
order = record { irreflexive = less_irreflexive; transitive = less_transitive }

abbrev corner : ℕ → Point3f ℕ
corner x = record { x = x; y = 0; z = 0 }

abbrev wall_at : String → ℕ → ℕ → Wall ℕ
wall_at id x y = record {
  first_pt = record { refer = none; info = corner x };
  second_pt = record { refer = none; info = corner y };
  width = 1;
  height = 4;
  openings = [];
  id = id;
}

abbrev long : DataBox floats
long = wall (wall_at "long" 0 9)

abbrev short : DataBox floats
short = wall (wall_at "short" 7 8)

-- The first end of the short wall follows the second end of the long one.
abbrev joined : Reference
joined = record {
  owner = record { id = "short"; ref_type = profile_point; index = 0 };
  other = record { id = "long"; ref_type = profile_point; index = 1 };
}

abbrev group : DataBox floats
group = visibility_group (record {
  id = "group";
  children =
      some (record { id = "long"; ref_type = drawable; index = 0 })
      ∷ none
      ∷ some (record { id = "short"; ref_type = drawable; index = 0 })
      ∷ [];
})

get_closest_ref-IsNearest_example :
    IsNearest floats
      (ref_distances
        (data_box floats)
        profile_point
        (corner 8)
        short
        (get_available_refs_for_type floats profile_point short))
      1000000
      (get_closest_ref (data_box floats) short profile_point (corner 8))
get_closest_ref-IsNearest_example =
    Nearest.get_closest_ref-IsNearest (data_box floats) order profile_point (corner 8) short

get_closest_result-IsNearest_example :
    IsNearest floats
      (result_distances floats profile_point
        (corner 8)
        (get_id floats long)
        0
        (get_results_for_type floats profile_point long))
      1000000
      (get_closest_result (data_box floats) long profile_point (corner 8))
get_closest_result-IsNearest_example =
    Nearest.get_closest_result-IsNearest (data_box floats) order profile_point (corner 8) long

remove_objs_from_visibility_group-unlinked_example :
    (is_group floats group ≡ false)
      × (remove_objs_from_visibility_group (data_box floats) group ("long" ∷ [])
          ≡ err (obj_wrong_type (get_id floats group)))
    ⊎ (g : VisibilityGroup) × (group ≡ visibility_group g)
      × (remove_objs_from_visibility_group (data_box floats) group ("long" ∷ [])
          ≡ ok (group_of floats g.id (map (without ("long" ∷ [])) g.children)))
      × (get_refs floats (group_of floats g.id (map (without ("long" ∷ [])) g.children))
          ≡ map (unlinked ("long" ∷ [])) (get_refs floats group))
remove_objs_from_visibility_group-unlinked_example =
    Groups.remove_objs_from_visibility_group-unlinked floats group ("long" ∷ [])

results-collect_example :
    get_results_for_type floats profile_point short
    ≡ collect_from
        (get_num_results_for_type floats profile_point short)
        0
        (λ i. get_result floats profile_point i short)
results-collect_example = Laws.results-collect floats profile_point short

from_ref_msgs-map_example :
    from_ref_msgs packages (map (reference_msg_of packages) (joined ∷ [])) ≡ ok (joined ∷ [])
from_ref_msgs-map_example = Sent.from_ref_msgs-map packages (joined ∷ [])

abbrev objs : IndexMap (Option (DataBox floats))
objs = ("long", some long) ∷ ("short", some short) ∷ []

short_there :
    lookup "short" (update_all (data_box floats) packages.index_map objs []) ≡ some (some short)
unfolding update_all
short_there = refl

long_result :
    get_ref_result
      (data_box floats)
      packages.index_map
      (update_all (data_box floats) packages.index_map objs [])
      joined.other
    ≡ some (point (corner 9))
unfolding update_all get_ref_result get_result Wall.get_result
long_result = refl

update_all-follows_example :
    (get_ref_result
        (data_box floats)
        packages.index_map
        (update_all (data_box floats) packages.index_map objs (joined ∷ []))
        joined.owner
      ≡ some (point (corner 9)))
    × (get_ref_result
          (data_box floats)
          packages.index_map
          (update_all (data_box floats) packages.index_map objs (joined ∷ []))
          joined.other
        ≡ some (point (corner 9)))
update_all-follows_example =
    Follows.update_all-follows floats packages.index_map objs [] [] joined (wall_at "short" 7 8)
      (point (corner 9)) refl short_there (omega arith) long_result refl refl

abbrev object_of : String → DataBox floats → ObjectMsg
object_of id obj = record { id = id; dependencies = none; obj_data = boxes.encode obj }

abbrev changes : List ChangeMsg
changes =
    record {
      user = "ann";
      change_type = some (modify (object_of "long" long));
      change_source = some user_action;
    }
    ∷ record {
      user = "ann";
      change_type = some (add (object_of "short" short));
      change_source = some user_action;
    }
    ∷ []

readable : AreReadAs packages [] changes objs
unfolding get_id
readable = ((refl, read_box_lem long, refl), refl, ((refl, read_box_lem short, refl), refl, tt))

update_objects-AreSentAs_example :
    (sent : List ChangeMsg) × (update_objects packages
        (reference_msg_of packages joined ∷ [])
        changes
      ≡ ok sent)
    × AreSentAs packages changes
        (update_all (data_box floats) packages.index_map objs (joined ∷ []))
        sent
update_objects-AreSentAs_example =
    Sent.update_objects-AreSentAs packages (reference_msg_of packages joined ∷ []) (joined ∷ [])
      changes objs (Sent.from_ref_msgs-map packages (joined ∷ [])) readable

abbrev unit_order : UnitOrder floats
unit_order = record { zero_not_less = refl; one_not_less = refl; one_not_below = refl }

-- A new door that is set on a line.
abbrev hung : Door ℕ
hung =
    Door.set_ref floats profile_line 0 (line (record { pt_1 = corner 0; pt_2 = corner 9 }))
      (record { id = "long"; ref_type = profile_line; index = 0 }) (some (point (corner 5)))
      (Door.new floats "door" (corner 0) (corner 2) 1 3)

Reachable-IsUnit_example : IsUnit floats hung.dir.interp
Reachable-IsUnit_example =
    Bounds.Reachable-IsUnit floats unit_order hung (next (made _ _ _ _ _) (set _ _ _ _ _))
