-- ===== src/Updates/Connection.antt =====
-- handle_connection of updates/src/main.rs: a client on a websocket, and its channel.
use kafka_cad.Prelude.{String, Bool, Option, none, some, List, [], ◌∷◌, if◌then◌else◌}
use kafka_cad.Updates.{UpdateMessage, ChannelMap, subscribe, unsubscribe}

-- A message of the websocket.
pub data WsMessage (Blob : Type 0) : Type 0 where
  text : String → WsMessage Blob
  binary ping pong : Blob → WsMessage Blob
  close : WsMessage Blob

pub data Command : Type 0 where
  subscribe_to unsubscribe_from : String → String → Command

-- What `select` has ready: the websocket (none where it has ended, an error of the websocket is
-- `broken`), or the channel.
pub data Selected (Blob : Type 0) : Type 0 where
  websocket : Option (WsMessage Blob) → Selected Blob
  broken : Selected Blob
  channel : Option (UpdateMessage Blob) → Selected Blob

-- How a connection goes on: it waits, it was closed, or it ended in an error.
pub data Progress : Type 0 where
  waiting closed failed : Progress

-- serde_json, the text of an unexpected message, sending on the websocket, and what it leaves.
pub record Websocket (Blob World : Type 0) : Type 0 where
  pub from_str : String → Option Command
  pub unexpected : WsMessage Blob → String
  pub send : WsMessage Blob → World → Bool × World

module _ {Blob Sender World : Type 0} (ws : Websocket Blob World) (channel_send : Sender) where
  pub send_on : WsMessage Blob → ChannelMap Sender × World → Progress × (ChannelMap Sender × World)
  send_on msg (channels, world) =
      let (is_sent, world') = ws.send msg world in
      (if is_sent then waiting else failed, (channels, world'))

  pub command : Command → ChannelMap Sender → ChannelMap Sender
  command (subscribe_to filename user) channels =
      subscribe filename (record { sender = channel_send; user = user }) channels
  command (unsubscribe_from filename user) channels = unsubscribe filename user channels

  pub handle_ws :
      WsMessage Blob → ChannelMap Sender × World → Progress × (ChannelMap Sender × World)
  handle_ws (ping msg) state = send_on (pong msg) state
  handle_ws (pong msg) state = send_on (ping msg) state
  handle_ws close state = (closed, state)
  handle_ws (text sub_msg) (channels, world) = elim (ws.from_str sub_msg) [
    | none ↦ (waiting, (channels, world))
    | some cmd ↦ (waiting, (command cmd channels, world))
  ]
  handle_ws (binary msg) state = send_on (text (ws.unexpected (binary msg))) state

  -- One round of the loop.
  pub handle_selected :
      Selected Blob → ChannelMap Sender × World → Progress × (ChannelMap Sender × World)
  handle_selected (websocket none) state = (closed, state)
  handle_selected (websocket (some msg)) state = handle_ws msg state
  handle_selected broken state = (failed, state)
  handle_selected (channel none) state = (closed, state)
  handle_selected (channel (some ws_msg)) state = send_on (binary ws_msg.msg) state

  -- The loop, over what is ready in order.
  unfoldable pub handle_connection :
      List (Selected Blob) → ChannelMap Sender × World → Progress × (ChannelMap Sender × World)
  handle_connection [] state = (waiting, state)
  handle_connection (selected ∷ rest) state =
      let (progress, next) = handle_selected selected state in
      let later = handle_connection rest next in
      elim progress [ waiting ↦ later | closed ↦ (closed, next) | failed ↦ (failed, next) ]
