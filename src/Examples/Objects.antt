-- ===== src/Examples/Objects.antt =====
-- The theorems on objects at a short log: an object is added, changed and deleted.
use kafka_cad.Prelude.{
  ◌≡◌, refl, subst, none, some, List, [], ◌∷◌, map, string_eq, ne_of_beq, arith,
}
use kafka_cad.Prelude.Int.{pos}
use kafka_cad.Prelude.Result.{ok, err}
use kafka_cad.State.{ChangeType, add, modify, delete, user_action, ChangeMsg, ObjectMsg, type_id}
use kafka_cad.Objects.{
  Services, GetObjectsInput, database_error, get_object, get_objects, get_latest_offset,
}
use kafka_cad.Objects.Keys.{IsPlainId}
use kafka_cad.Objects.History
use kafka_cad.Objects.History.{Commit, IsPlainLog, latest, consume, found}
use kafka_cad.Objects.Requests
use kafka_cad.Objects.Requests.{version_of}
use kafka_cad.Objects.Listing
use kafka_cad.Objects.Listing.{is_member, is_listed, last_offset}
use kafka_cad.Examples.Server.{memory, empty}
use kafka_cad.Examples.Blobs.{Blob, blob_eq, version, texts, numbers, changes}

abbrev pub services : Services Blob
services = record {
  redis = memory;
  entries = record {
    encode = λ entry. version entry.offset entry.object;
    decode = λ b. elim b [ version z o ↦ some (record { offset = z; object = o }) | _ ↦ none ];
    decode-encode = λ entry. refl;
  };
  changes = changes;
  texts = texts;
  numbers = numbers;
}

abbrev pub wall : ObjectMsg
wall = record { id = "wall"; dependencies = none; obj_data = [] }

abbrev pub added : ChangeMsg
added = record { user = "ann"; change_type = some (add wall); change_source = some user_action }

abbrev pub moved : ChangeMsg
moved = record added { change_type = some (modify (record wall { obj_data = 7 ∷ [] })) }

abbrev pub gone : ChangeMsg
gone = record added { change_type = some (delete (record { id = "wall" })) }

abbrev pub log : List Commit
log =
    record { file = "house"; offset = pos 4; change = added }
    ∷ record { file = "house"; offset = pos 5; change = moved }
    ∷ record { file = "house"; offset = pos 6; change = gone }
    ∷ []

pub wall-IsPlainId : IsPlainId "wall"
wall-IsPlainId = record {
  no_colon = omega arith;
  not_offset = ne_of_beq "wall" "offset" refl;
  not_list = ne_of_beq "wall" "obj_list" refl;
}

pub plain :
    (t : ChangeType)
    → IsPlainId (type_id t)
    → (u : ChangeType) → some t ≡ some u
    → IsPlainId (type_id u)
plain t h u p = let q : t ≡ u = cc p in subst (λ v. IsPlainId (type_id v)) q h

pub log-IsPlainLog : IsPlainLog log
log-IsPlainLog = (
  plain (add wall) wall-IsPlainId,
  (
    plain (modify (record wall { obj_data = 7 ∷ [] })) wall-IsPlainId,
    (plain (delete (record { id = "wall" })) wall-IsPlainId, tt),
  ),
)

get_object-consume_example :
    get_object services "house" (pos 5) "wall" (consume services log empty)
    ≡ found services "wall" (latest (pos 5) "house" "wall" log)
get_object-consume_example =
    History.get_object-consume services log (pos 5) "house" "wall" empty log-IsPlainLog
      wall-IsPlainId refl

abbrev request : GetObjectsInput
request = record {
  file = "house";
  obj_ids =
      record { offset = pos 4; obj_id = "wall" } ∷ record { offset = pos 9; obj_id = "door" } ∷ [];
}

pub door-IsPlainId : IsPlainId "door"
door-IsPlainId = record {
  no_colon = omega arith;
  not_offset = ne_of_beq "door" "offset" refl;
  not_list = ne_of_beq "door" "obj_list" refl;
}

get_objects-consume_example :
    get_objects services request (consume services log empty)
    ≡ ok (map (version_of "house" log) request.obj_ids)
get_objects-consume_example =
    Requests.get_objects-consume services request log empty log-IsPlainLog
      (wall-IsPlainId, (door-IsPlainId, tt)) (λ _. refl)

is_member-consume_example :
    is_member services (consume services log empty) "house" "wall"
    ≡ is_listed "house" "wall" log (is_member services empty "house" "wall")
is_member-consume_example =
    Listing.is_member-consume services log "house" "wall" empty log-IsPlainLog

get_latest_offset-consume_example :
    get_latest_offset services "house" (consume services log empty)
    ≡ (elim (last_offset "house" log none) [ none ↦ err database_error | some z ↦ ok z ])
get_latest_offset-consume_example =
    Listing.get_latest_offset-consume services log "house" empty log-IsPlainLog refl
