-- ===== src/Examples/Updates.antt =====
-- The theorems on channels at three channels, of which the second is closed.
use kafka_cad.Prelude.{
  ℕ, suc, ◌≡◌, refl, Bool, not, none, some, List, [], ◌∷◌, ◌==◌, nat_eq, string_eq, if◌then◌else◌,
}
use kafka_cad.Prelude.Int.{pos}
use kafka_cad.Prelude.Result.{ok}
use kafka_cad.Kafka.{Message}
use kafka_cad.Updates.{
  UpdateMessage, ChannelSend, ChannelMap, put_senders, handle_message, subscribe, unsubscribe,
}
use kafka_cad.Updates.Channels
use kafka_cad.Updates.Channels.{open_senders, world_after, dropped}
use kafka_cad.Updates.Rounds
use kafka_cad.Updates.Rounds.{senders_of}
use kafka_cad.Examples.Blobs.{Blob, texts, name}

-- Channel 7 is closed; the state counts the messages that went out.
abbrev send : ℕ → UpdateMessage Blob → ℕ → Bool × ℕ
send channel message sent = (not (channel == 7), suc sent)

abbrev entry : List (ChannelSend ℕ)
entry =
    record { sender = 3; user = "ann" }
    ∷ record { sender = 7; user = "bob" }
    ∷ record { sender = 4; user = "ann" }
    ∷ []

abbrev channels : ChannelMap ℕ
channels file = if "house" == file then some entry else none

abbrev message : Message Blob
message = record {
  partition = pos 0;
  offset = pos 1;
  payload = some (name "mesh");
  key = some (name "house");
}

handle_message-open_example : handle_message texts send message (channels, 0) ≡ (
  ok tt,
  (
    put_senders "house"
        (open_senders texts send (record { file = "house"; msg = name "mesh" }) entry 0)
        channels,
    world_after texts send (record { file = "house"; msg = name "mesh" }) entry 0,
  ),
)
handle_message-open_example =
    Channels.handle_message-open texts send message "house" (name "mesh") (name "house") entry
      channels 0 refl refl refl refl

unsubscribe-drop_example :
    unsubscribe "house" "ann" channels "house" ≡ dropped "ann" (channels "house")
unsubscribe-drop_example = Channels.unsubscribe-drop "house" "ann" "house" channels

unsubscribe-subscribe_example :
    unsubscribe "house" "eve"
      (subscribe "house" (record { sender = 9; user = "eve" }) channels)
      "house"
    ≡ some (senders_of (channels "house"))
unsubscribe-subscribe_example =
    Rounds.unsubscribe-subscribe "house" "house" (record { sender = 9; user = "eve" }) channels refl
