-- ===== src/Kafka/Producer.antt =====
-- FutureProducer of the package rdkafka, as submit/src/produce.rs and
-- representations/src/produce.rs use it, on a topic of one partition.
use kafka_cad.Prelude.{◌≡◌, true, Option, some, List, [], ◌∷◌, ◌++◌}
use kafka_cad.Prelude.Int.{ℤ, pos, leb_ℤ}
use kafka_cad.Kafka.{Message}

-- `send` has the key before the payload, and its delivery status is the offset, or
-- none at an error. `messages` is what the consumers of the topic are given.
pub record Producer (Blob : Type 0) : Type 1 where
  pub Topic : Type 0
  pub send : Blob → Blob → Topic → Option ℤ × Topic
  pub messages : Topic → List (Message Blob)
  pub messages-send :
      (key payload : Blob) (t t' : Topic) (offset : ℤ)
      → send key payload t ≡ (some offset, t')
      → messages t'
        ≡ messages t
          ++ record { partition = pos 0; offset = offset; payload = some payload; key = some key }
            ∷ []
  pub send-order :
      (key key' payload payload' : Blob) (t t' t'' : Topic) (offset offset' : ℤ)
      → send key payload t ≡ (some offset, t')
      → send key' payload' t' ≡ (some offset', t'')
      → leb_ℤ offset offset' ≡ true
