-- ===== src/Examples/Undo.antt =====
-- The theorems on the undo cache at one user who has begun an event.
use kafka_cad.Prelude.{◌≡◌, refl, none, some, [], ◌∷◌, map, string_eq, arith}
use kafka_cad.Prelude.Int.{pos}
use kafka_cad.State.{add, user_action, ChangeMsg}
use kafka_cad.Undo.{Services, update_undo_cache_inner, undo_latest}
use kafka_cad.Undo.Spec.{Model, Side, stack_of, undo_side, redo_side, apply_change, begin_round}
use kafka_cad.Undo.Names.{AreNames, stack_key}
use kafka_cad.Undo.View.{Represents}
use kafka_cad.Undo.Refines
use kafka_cad.Undo.Refines.{Implements, entry_of}
use kafka_cad.Undo.Requests
use kafka_cad.Examples.Server.{Memory, memory, empty}
use kafka_cad.Examples.Blobs.{Blob, blob_eq, texts, entries, changes}

abbrev pub services : Services Blob
services = record { redis = memory; entries = entries; changes = changes; texts = texts }

abbrev pub nothing : Model
nothing = record { undos = []; redos = []; events = λ _. [] }

pub empty-Represents : Represents services "house" "ann" empty nothing
empty-Represents = record { stacks = stacks; events = λ event h. refl; names = names }
  where
    stacks :
        (side : Side)
        → services.redis.lrange empty (stack_key "house" "ann" side)
          ≡ map services.texts.encode (stack_of side nothing)
    stacks undo_side = refl
    stacks redo_side = refl

    names : (side : Side) → AreNames (stack_of side nothing)
    names undo_side = tt
    names redo_side = tt

abbrev pub begun : Memory Blob
begun =
    services.redis.rpush (stack_key "house" "ann" undo_side) (services.texts.encode "first") empty

abbrev pub one_event : Model
one_event = record nothing { undos = "first" ∷ [] }

pub begun-Represents : Represents services "house" "ann" begun one_event
begun-Represents =
    Requests.push_Represents services "house" "ann" undo_side "first" empty nothing (omega arith)
      empty-Represents

abbrev wall_added : ChangeMsg
wall_added = record {
  user = "ann";
  change_type = some (add (record { id = "wall"; dependencies = none; obj_data = [] }));
  change_source = some user_action;
}

update_undo_cache_inner-Implements_example :
    Implements services "house" "ann"
      (update_undo_cache_inner services "house" (pos 4) wall_added begun)
      (apply_change "house" "ann" (some user_action) (entry_of (pos 4) wall_added) one_event)
update_undo_cache_inner-Implements_example =
    Refines.update_undo_cache_inner-Implements services "house" (pos 4) wall_added begun one_event
      tt begun-Represents

undo_latest-Implements_example :
    Implements services "house" "ann"
      (undo_latest services "second" "house" "ann" begun)
      (begin_round "house" "ann" undo_side redo_side "second" one_event)
undo_latest-Implements_example =
    Requests.undo_latest-Implements services "house" "ann" "second" begun one_event (omega arith)
      begun-Represents
