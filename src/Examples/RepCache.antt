-- ===== src/Examples/RepCache.antt =====
-- The theorems on representations at two updates of a wall.
use kafka_cad.Prelude.{String, ◌≡◌, refl, none, some, List, [], ◌∷◌, string_eq, arith}
use kafka_cad.Prelude.Int.{pos}
use kafka_cad.RepCache.{Services, UpdateChangeMsg, get_object_rep, get_object_representations}
use kafka_cad.RepCache.Consumed
use kafka_cad.RepCache.Consumed.{Update, consume, last_rep, answer, all_reps}
use kafka_cad.Examples.Server.{memory, empty}
use kafka_cad.Examples.Blobs.{Blob, blob_eq, texts, reps}

abbrev pub services : Services Blob String
services = record { redis = memory; reps = reps; texts = texts }

abbrev drawing : UpdateChangeMsg String
drawing = record { file = "house"; user = "ann"; obj_id = "wall"; update = some "mesh" }

abbrev log : List (Update String)
log =
    record { file = "house"; offset = pos 2; rep = drawing }
    ∷ record { file = "house"; offset = pos 3; rep = record drawing { update = some "delete" } }
    ∷ []

get_object_rep-consume_example :
    get_object_rep services "house" "wall" (consume services log empty)
    ≡ answer "wall" (last_rep "house" "wall" log none)
get_object_rep-consume_example =
    Consumed.get_object_rep-consume services "house" "wall" log empty
      (omega arith, (omega arith, tt)) (omega arith) refl

get_object_representations-consume_example :
    get_object_representations services "house" ("wall" ∷ "door" ∷ []) (consume services log empty)
    ≡ all_reps services "house" log ("wall" ∷ "door" ∷ [])
get_object_representations-consume_example =
    Consumed.get_object_representations-consume services "house" ("wall" ∷ "door" ∷ []) log empty
      (omega arith, (omega arith, tt)) (omega arith, (omega arith, tt)) (λ _. refl)
