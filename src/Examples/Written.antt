-- ===== src/Examples/Written.antt =====
-- A producer in memory, and the theorem on submissions at a door that is added.
use kafka_cad.Prelude.{
  ◌≡◌, refl, sym, ap, true, some, Option, List, [], ◌∷◌, ◌++◌, map, length, length-append, ℕ,
  string_eq, arith,
}
use kafka_cad.Prelude.Int.{ℤ, pos, leb_ℤ}
use kafka_cad.Prelude.Result.{ok}
use kafka_cad.State.{ChangeMsg}
use kafka_cad.Kafka.{Message, received, handle_stream}
use kafka_cad.Objects.{get_object, update_object_cache}
use kafka_cad.Objects.History.{IsPlainLog, message_of}
use kafka_cad.Maps.{IndexMap}
use kafka_cad.Submit.{
  extract_info, extract_from, extract_type, push_owners, get_all_dependencies, add_missing,
  missing_ids, get_obj_ids_to_fetch, get_objects_to_update, update, update_changes,
}
use kafka_cad.Submit.Fetched
use kafka_cad.Kafka.Producer.{Producer}
use kafka_cad.Submit.Server
use kafka_cad.Submit.Server.Newest.{commits}
use kafka_cad.Submit.Server.Written
use kafka_cad.Submit.Server.Written.{one, all}
use kafka_cad.Examples.Server.{empty}
use kafka_cad.Examples.Blobs.{Blob, name, change, blob_eq}
use kafka_cad.Examples.Objects.{
  services, added, log, log-IsPlainLog, door-IsPlainId, wall-IsPlainId, plain,
}
use kafka_cad.Examples.Dependencies.{door_added}
use kafka_cad.Examples.Submit.{clients, on_wall, only_wall}

abbrev pub at : Blob → Blob → ℕ → Message Blob
at key payload offset = record {
  partition = pos 0;
  offset = pos offset;
  payload = some payload;
  key = some key;
}

abbrev pub send : Blob → Blob → List (Message Blob) → Option ℤ × List (Message Blob)
send key payload t = (some (pos (length t)), t ++ at key payload (length t) ∷ [])

status_offset : (m : ℕ) (o : ℤ) → some (pos m) ≡ some o → o ≡ pos m
status_offset m o p = cc p

pub sent_offset :
    (key payload : Blob) (t t' : List (Message Blob)) (offset : ℤ)
    → send key payload t ≡ (some offset, t')
    → offset ≡ pos (length t)
sent_offset key payload t t' offset p = status_offset (length t) offset (ap (λ r. r.0) p)

pub sent_topic :
    (key payload : Blob) (t t' : List (Message Blob)) (offset : ℤ)
    → send key payload t ≡ (some offset, t')
    → t' ≡ t ++ at key payload (length t) ∷ []
sent_topic key payload t t' offset p = sym (ap (λ r. r.1) p)

pub send_order :
    (key key' payload payload' : Blob) (t t' t'' : List (Message Blob)) (offset offset' : ℤ)
    → send key payload t ≡ (some offset, t')
    → send key' payload' t' ≡ (some offset', t'')
    → leb_ℤ offset offset' ≡ true
send_order key key' payload payload' t t' t'' offset offset' p q =
    rw
      (
        sent_offset key payload t t' offset p,
        sent_offset key' payload' t' t'' offset' q,
        sent_topic key payload t t' offset p,
        length-append t (at key payload (length t) ∷ []),
      )
      (ground arith)

-- The topic is its messages, and an offset is how many there are before.
abbrev pub memory_producer : Producer Blob
memory_producer = record {
  Topic = List (Message Blob);
  send = send;
  messages = λ t. t;
  messages-send = λ key payload t t' offset p.
      rw (sent_offset key payload t t' offset p) (sent_topic key payload t t' offset p);
  send-order = send_order;
}

abbrev by_bob : ChangeMsg
by_bob = record added { user = "bob" }

abbrev objects : IndexMap ChangeMsg
objects = ("door", door_added) ∷ []

fetched_ids : get_obj_ids_to_fetch clients on_wall objects ≡ "wall" ∷ []
unfolding get_obj_ids_to_fetch missing_ids add_missing
fetched_ids = refl

fetched : get_objects_to_update clients "house" (pos 4) "bob" ("wall" ∷ []) ≡ ok (by_bob ∷ [])
fetched =
    Fetched.get_objects_to_update-consume services clients (λ error. error) log empty "house"
      (pos 4) "bob" ("wall" ∷ []) (λ input. refl) log-IsPlainLog only_wall (λ _. refl)

updated :
    update_changes clients "house" "bob" (pos 4) (door_added ∷ []) ≡ ok (door_added ∷ by_bob ∷ [])
unfolding update_changes update get_all_dependencies extract_info extract_from extract_type
    push_owners
updated = rw (fetched_ids, fetched) refl

abbrev topic : List (Message Blob)
topic = map (message_of services) log

abbrev first : List (Message Blob)
first = topic ++ at (name "house") (change door_added) 3 ∷ []

abbrev second : List (Message Blob)
second = first ++ at (name "house") (change by_bob) 4 ∷ []

sent-IsPlain : IsPlainLog (commits "house" (door_added ∷ by_bob ∷ []) (pos 3 ∷ pos 4 ∷ []))
sent-IsPlain = (plain _ door-IsPlainId, (plain _ wall-IsPlainId, tt))

submit_changes-read_example :
    (Server.submit_changes clients memory_producer services.texts services.changes
        (record { file = "house"; user = "bob"; offset = pos 4; changes = door_added ∷ [] })
        topic
      ≡ (some (ok (pos 3 ∷ pos 4 ∷ [])), second))
    × (get_object services "house"
          (pos 4)
          "door"
          (handle_stream services.texts (update_object_cache services) (map received second) empty)
        ≡ ok (services.changes.encode door_added))
submit_changes-read_example =
    Written.submit_changes-read services memory_producer "house" clients log empty "bob" "door"
      (pos 4) (pos 4) (door_added ∷ []) (door_added ∷ by_bob ∷ []) topic second (pos 3 ∷ pos 4 ∷ [])
      door_added updated (one refl (one refl all)) refl refl log-IsPlainLog sent-IsPlain
      door-IsPlainId refl refl
