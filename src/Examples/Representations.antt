-- ===== src/Examples/Representations.antt =====
-- The theorem on representations at the log of a wall.
use kafka_cad.Prelude.{String, ◌≡◌, refl, none, [], ◌∷◌, ◌++◌, map, length, arith, string_eq}
use kafka_cad.Prelude.Int.{pos}
use kafka_cad.Prelude.Result.{ok}
use kafka_cad.Kafka.{received}
use kafka_cad.RepCache
use kafka_cad.RepCache.{get_object_rep}
use kafka_cad.RepCache.Consumed.{answer}
use kafka_cad.Representations.{Services, handle_stream}
use kafka_cad.Representations.Added.{state_event, AreNoColon, Delivers}
use kafka_cad.Representations.Drawn
use kafka_cad.Representations.Drawn.{last_drawn}
use kafka_cad.Examples.Server.{empty}
use kafka_cad.Examples.Blobs.{Blob, blob_eq, texts, changes, reps}
use kafka_cad.Examples.Objects.{log, log-IsPlainLog}
use kafka_cad.Examples.RepCache.{services}
use kafka_cad.Examples.Written.{memory_producer, at}

-- The operations service answers a mesh for every change.
abbrev drawer : Services Blob String
drawer = record {
  texts = texts;
  changes = changes;
  reps = reps;
  client_representation = λ objects. ok (map (λ _. "mesh") objects);
  producer = memory_producer;
}

delivers : Delivers drawer
delivers = λ key payload t. (pos (length t), t ++ at key payload (length t) ∷ [], refl)

ids_plain : AreNoColon drawer log
ids_plain = (
  λ t p. (log-IsPlainLog.0 t p).no_colon,
  (λ t p. (log-IsPlainLog.1.0 t p).no_colon, (λ t p. (log-IsPlainLog.1.1.0 t p).no_colon, tt)),
)

get_object_rep-drawn_example :
    get_object_rep services "house" "wall" (
      RepCache.handle_stream services
        (map received
          (drawer.producer.messages (handle_stream drawer (map (state_event drawer) log) [])))
        empty)
    ≡ answer "wall" (last_drawn drawer "house" "wall" log none)
get_object_rep-drawn_example =
    Drawn.get_object_rep-drawn drawer services "house" "wall" log [] empty refl refl delivers refl
      ids_plain (omega arith) refl
