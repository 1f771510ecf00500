-- ===== src/Common/PubSub.antt =====
-- PubSubMessageFromJSON and ToRemoteDisconnectMessage of common/common.go: what comes from the
-- application or from another node.
use anycable_go.Prelude.{
  Bool, List, Option, Result, String, [], err, if◌then◌else◌, none, ok, panic, some, ◌==◌, ◌∷◌,
  string_eq, nat_eq,
}
use anycable_go.Common.{StreamMessage, RemoteCommandMessage}

pub record RemoteDisconnectMessage : Type 0 where
  pub identifier : String
  pub reconnect : Bool

-- The decoder of JSON, for each type that is tried. A batch is a list of pointers, which `null` in
-- the text makes nil.
pub record Decoder : Type 0 where
  pub as_stream : String → Option StreamMessage
  pub as_batch : String → Option (List (Option StreamMessage))
  pub as_command : String → Option RemoteCommandMessage
  pub as_disconnect : String → Option RemoteDisconnectMessage

pub data PubSubMessage : Type 0 where
  one : StreamMessage → PubSubMessage
  batch : List (Option StreamMessage) → PubSubMessage
  command : RemoteCommandMessage → PubSubMessage

-- The text is none of these.
pub data DecodeError : Type 0 where
  no_message : DecodeError

module _ (dec : Decoder) where
  abbrev from_command : Option RemoteCommandMessage → Result DecodeError PubSubMessage
  from_command none = err no_message
  from_command (some c) = ok (command c)

  -- `batch[0].Stream` of a nil pointer is a run-time panic.
  unfoldable pub from_batch :
      String → Option (List (Option StreamMessage)) → Result DecodeError PubSubMessage
  from_batch raw none = from_command (dec.as_command raw)
  from_batch raw (some []) = from_command (dec.as_command raw)
  from_batch raw (some (none ∷ ms)) = panic
  from_batch raw (some (some m ∷ ms)) =
      if m.stream == "" then from_command (dec.as_command raw) else ok (batch (some m ∷ ms))

  unfoldable pub pub_sub_message_from_json : String → Result DecodeError PubSubMessage
  unfolding from_batch
  pub_sub_message_from_json raw = elim (dec.as_stream raw) [
    | none ↦ from_batch raw (dec.as_batch raw)
    | some m ↦ if m.stream == "" then from_batch raw (dec.as_batch raw) else ok (one m)
  ]

  pub to_remote_disconnect_message : RemoteCommandMessage → Option RemoteDisconnectMessage
  to_remote_disconnect_message c = dec.as_disconnect c.payload
