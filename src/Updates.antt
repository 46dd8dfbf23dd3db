-- ===== src/Updates.antt =====
-- updates/src/kafka.rs, and the commands of updates/src/main.rs: the channels that wait for the
-- updates of a file. Sending on a channel is the library's: a function on a state of its own that
-- says whether the channel is still open.
pub mod Channels
pub mod Rounds
pub mod Connection
use kafka_cad.Prelude.{
  ℕ, zero, suc, String, Bool, true, false, Option, none, some, List, [], ◌∷◌, ◌++◌, Eq, string_eq,
  ◌==◌, if◌then◌else◌,
}
use kafka_cad.Prelude.Int.{ℤ}
use kafka_cad.Prelude.Result.{Result, ok, err}
use kafka_cad.Redis.{Codec}
use kafka_cad.Kafka.{Message}

pub data UpdateError : Type 0 where
  string_error : UpdateError
  payload_error : ℤ → ℤ → UpdateError
  file_error : ℤ → ℤ → UpdateError

pub record UpdateMessage (Blob : Type 0) : Type 0 where
  pub file : String
  pub msg : Blob

pub record ChannelSend (Sender : Type 0) : Type 0 where
  pub sender : Sender
  pub user : String

-- DashMap<String, Vec<ChannelSend>>
abbrev pub ChannelMap : Type 0 → Type 0
ChannelMap Sender = String → Option (List (ChannelSend Sender))

abbrev pub put_senders :
    {Sender : Type 0} → String → List (ChannelSend Sender) → ChannelMap Sender → ChannelMap Sender
put_senders file senders channels j = if file == j then some senders else channels j

-- Vec::remove, at an index that is there.
abbrev pub remove_at : {A : Type 0} → ℕ → List A → List A
remove_at i [] = []
remove_at zero (x ∷ xs) = xs
remove_at (suc i) (x ∷ xs) = x ∷ remove_at i xs

-- The second loop of handle_message, over the reversed indices.
pub delete_channels : {A : Type 0} → List ℕ → List A → List A
delete_channels [] senders = senders
delete_channels (index ∷ to_delete) senders = delete_channels to_delete (remove_at index senders)

abbrev pub reverse_onto : {A : Type 0} → List A → List A → List A
reverse_onto [] ys = ys
reverse_onto (x ∷ xs) ys = reverse_onto xs (x ∷ ys)

abbrev pub reverse : {A : Type 0} → List A → List A
reverse xs = reverse_onto xs []

pub subscribe :
    {Sender : Type 0} → String → ChannelSend Sender → ChannelMap Sender → ChannelMap Sender
subscribe filename send channels = elim (channels filename) [
  | some entry ↦ put_senders filename (entry ++ send ∷ []) channels
  | none ↦ put_senders filename (send ∷ []) channels
]

-- The loop of the Unsubscribe command: where the first channel of the user is, if there is one.
pub find_user : {Sender : Type 0} → String → List (ChannelSend Sender) → ℕ → Option ℕ
find_user user [] index = none
find_user user (send ∷ senders) index =
    if send.user == user then some index else find_user user senders (suc index)

pub unsubscribe : {Sender : Type 0} → String → String → ChannelMap Sender → ChannelMap Sender
unsubscribe filename user channels = elim (channels filename) [
  | none ↦ channels
  | some senders ↦ elim (find_user user senders 0) [
    | none ↦ channels
    | some index ↦ put_senders filename (remove_at index senders) channels
  ]
]

module _ {Blob Sender World : Type 0} (texts : Codec Blob String)
    (send : Sender → UpdateMessage Blob → World → Bool × World) where
  -- The first loop of handle_message: the indices where sending failed.
  pub send_all : UpdateMessage Blob → List (ChannelSend Sender) → ℕ → World → List ℕ × World
  send_all message [] index world = ([], world)
  send_all message (sender ∷ senders) index world =
      let (is_sent, next) = send sender.sender message world in
      let (to_delete, last) = send_all message senders (suc index) next in
      (if is_sent then to_delete else index ∷ to_delete, last)

  pub notify : String → Blob → ChannelMap Sender × World → ChannelMap Sender × World
  notify file bytes (channels, world) = elim (channels file) [
    | none ↦ (channels, world)
    | some entry ↦
        let (to_delete, last) = send_all (record { file = file; msg = bytes }) entry 0 world in
        (put_senders file (delete_channels (reverse to_delete) entry) channels, last)
  ]

  pub handle_message :
      Message Blob
      → ChannelMap Sender × World
      → Result UpdateError (Unit {0}) × (ChannelMap Sender × World)
  handle_message m state = elim m.payload [
    | none ↦ (err (payload_error m.partition m.offset), state)
    | some bytes ↦ elim m.key [
      | none ↦ (err (file_error m.partition m.offset), state)
      | some file_bytes ↦ elim (texts.decode file_bytes) [
        | none ↦ (err string_error, state)
        | some file ↦ (ok tt, notify file bytes state)
      ]
    ]
  ]
