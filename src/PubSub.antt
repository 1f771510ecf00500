-- ===== src/PubSub.antt =====
-- pubsub/: the subscribers that carry what a broker broadcasts to the nodes, the one that hands it to
-- its own node and those that talk to NATS and Redis.
pub mod Delivered
mod Tests
use anycable_go.Prelude.{
  Bool, List, Option, String, [], err, if◌then◌else◌, none, ok, panic, some, true, ◌++◌, ◌∷◌,
  string_eq, nat_eq,
}
use anycable_go.Prelude.Dict.{Dict, delete, lookup, put}
use anycable_go.Common.{StreamMessage, RemoteCommandMessage}
use anycable_go.Common.PubSub.{Decoder, one, batch, command, pub_sub_message_from_json}
use anycable_go.Broker.Calls
use anycable_go.Broker.Calls.{Call}
use anycable_go.Node.Broadcasts.{Local, deliver, execute_remote_command}

-- LegacySubscriber: every call goes to the node at once.
pub pass_on : Decoder → Call → List Local
pass_on dec (Calls.broadcast msg) = deliver (some msg) ∷ []
pass_on dec (Calls.broadcast_command cmd) = execute_remote_command dec cmd
pass_on dec (Calls.subscribe stream) = []
pass_on dec (Calls.unsubscribe stream) = []

pub pass_all : Decoder → List Call → List Local
unfolding pass_on
pass_all dec [] = []
pass_all dec (c ∷ cs) = pass_on dec c ++ pass_all dec cs

-- handleMessage of the NATS subscriber, and the hook of the Redis one: batches are not passed on.
-- `none`: a panic in the decoder of messages.
pub handle_message : Decoder → String → Option (List Local)
handle_message dec raw = elim (pub_sub_message_from_json dec raw) [
  | ok (one msg) ↦ some (deliver (some msg) ∷ [])
  | ok (command cmd) ↦ some (execute_remote_command dec cmd)
  | ok (batch ms) ↦ some []
  | err e ↦ some []
  | panic ↦ none
]

-- What goes to the service: a text for a channel.
pub record Encoder : Type 0 where
  pub of_stream : StreamMessage → String
  pub of_command : RemoteCommandMessage → String

-- Broadcast and BroadcastCommand: a message goes to the channel of its stream, a command to the one
-- that is configured for all nodes.
pub publish : Encoder → String → Call → List (String × String)
publish enc channel (Calls.broadcast msg) = (msg.stream, enc.of_stream msg) ∷ []
publish enc channel (Calls.broadcast_command cmd) = (channel, enc.of_command cmd) ∷ []
publish enc channel (Calls.subscribe stream) = []
publish enc channel (Calls.unsubscribe stream) = []

-- The streams that are subscribed to: a Go map from their names.
abbrev pub Streams : Type 0
Streams = Dict String Bool

-- The NATS subscriber. `accepted` says whether the connection takes a new one.
pub nats_subscribe : Bool → String → Streams → Streams
nats_subscribe accepted stream m = elim (lookup stream m) [
  | some u ↦ m
  | none ↦ if accepted then put stream true m else m
]

pub nats_unsubscribe : String → Streams → Streams
nats_unsubscribe stream m = elim (lookup stream m) [ none ↦ m | some u ↦ delete stream m ]

-- The Redis subscriber, and the commands that wait for its client.
pub data ClientCommand : Type 0 where
  subscribe_cmd : String → ClientCommand
  unsubscribe_cmd : String → ClientCommand

pub redis_subscribe : String → Streams → Streams × List ClientCommand
redis_subscribe stream m = (put stream true m, subscribe_cmd stream ∷ [])

pub redis_unsubscribe : String → Streams → Streams × List ClientCommand
redis_unsubscribe stream m = elim (lookup stream m) [
  | none ↦ (m, [])
  | some u ↦ (delete stream m, unsubscribe_cmd stream ∷ [])
]
