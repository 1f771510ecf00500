-- ===== src/Node/Broadcasts.antt =====
-- What node/node.go does with messages that are not a client's: broadcasts of the application, those
-- of other nodes, and remote commands; and how the node shuts down.
use anycable_go.Prelude.{
  Bool, List, Option, Result, String, [], err, if◌then◌else◌, map, none, ok, panic, some, true, ℕ,
  ◌&&◌, ◌++◌, ◌==◌, ◌∷◌, string_eq, nat_eq,
}
use anycable_go.Common.{StreamMessage, RemoteCommandMessage}
use anycable_go.Common.PubSub.{
  Decoder, PubSubMessage, one, batch, command, RemoteDisconnectMessage, pub_sub_message_from_json,
  to_remote_disconnect_message,
}

-- The calls to the broker. A message is a pointer, and `none` is nil.
pub data Asked : Type 0 where
  record_message : Option StreamMessage → Asked
  record_command : RemoteCommandMessage → Asked

-- The calls to the hub. A nil message is put into the hub's channel like any other.
pub data Local : Type 0 where
  deliver : Option StreamMessage → Local
  remote_disconnect : RemoteDisconnectMessage → Local

module _ (dec : Decoder) where
  unfoldable pub execute_remote_command : RemoteCommandMessage → List Local
  execute_remote_command c =
      if c.command == "disconnect"
      then elim (to_remote_disconnect_message dec c) [
        | none ↦ []
        | some d ↦ remote_disconnect d ∷ []
      ]
      else []

  unfoldable pub record_all : PubSubMessage → List Asked
  record_all (one m) = record_message (some m) ∷ []
  record_all (batch ms) = map record_message ms
  record_all (command c) = record_command c ∷ []

  unfoldable pub deliver_all : PubSubMessage → List Local
  unfolding execute_remote_command
  deliver_all (one m) = deliver (some m) ∷ []
  deliver_all (batch ms) = map deliver ms
  deliver_all (command c) = execute_remote_command c

  -- A text that is no message is only logged. `none`: the decoder panics.
  unfoldable pub handle_broadcast : String → Option (List Asked)
  unfolding record_all
  handle_broadcast raw = elim (pub_sub_message_from_json dec raw) [
    | ok msg ↦ some (record_all msg)
    | err e ↦ some []
    | panic ↦ none
  ]

  unfoldable pub handle_pub_sub : String → Option (List Local)
  unfolding deliver_all
  handle_pub_sub raw = elim (pub_sub_message_from_json dec raw) [
    | ok msg ↦ some (deliver_all msg)
    | err e ↦ some []
    | panic ↦ none
  ]

-- The steps of Shutdown, in order. A session is closed with a disconnect message.
pub data Closing : Type 0 where
  close_session : ℕ → Closing
  close_hub : Closing
  close_disconnector : Closing
  close_controller : Closing

-- The loop of disconnectAll: `alive` says whether the context is still running when the session's
-- turn comes, and `connected` whether the session is.
pub disconnect_all : (ℕ → Bool) → (ℕ → Bool) → List ℕ → List Closing
disconnect_all alive connected [] = []
disconnect_all alive connected (s ∷ ss) =
    let rest = disconnect_all alive connected ss in
    if alive s && connected s then close_session s ∷ rest else rest

pub data ShutdownError : Type 0 where
  already_shut_down : ShutdownError

-- `closed`, and what is done. The errors of the disconnector and the controller are only logged.
pub shutdown : (ℕ → Bool) → (ℕ → Bool) → List ℕ → Bool → Result ShutdownError (List Closing) × Bool
unfolding disconnect_all
shutdown alive connected sessions closed = if closed then (err already_shut_down, true) else (
  ok (
      disconnect_all alive connected sessions
      ++ close_hub ∷ close_disconnector ∷ close_controller ∷ []),
  true,
)
