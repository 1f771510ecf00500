-- ===== src/PubSub/Tests.antt =====
-- Broadcasts at concrete inputs.
use anycable_go.Prelude.{String, [], none, some, ◌∷◌, ◌≡◌, string_eq, nat_eq}
use mathlib.Core.Option
use anycable_go.Common.{StreamMessage}
use anycable_go.Common.PubSub.{Decoder}
use anycable_go.Broker.Legacy.{LegacyBroker}
use anycable_go.Node.Broadcasts.{handle_broadcast, handle_pub_sub}
use anycable_go.PubSub.Delivered.{carry_all, heard, broadcast_is_heard}

abbrev message : String → StreamMessage
message stream = record { stream = stream; body = "hi"; meta = none; offset = 0; epoch = "" }

-- Every text is a batch of two messages and a null between them.
abbrev two_messages : Decoder
two_messages = record {
  as_stream = λ raw. none;
  as_batch = λ raw. some (some (message "news") ∷ none ∷ some (message "chat") ∷ []);
  as_command = λ raw. none;
  as_disconnect = λ raw. none;
}

abbrev broker : LegacyBroker
broker = record { tracker = record { store = ("news", 1) ∷ [] } }

broadcast_is_heard_example :
    Option.map (carry_all two_messages broker) (handle_broadcast two_messages "[…]")
    ≡ Option.map (heard broker) (handle_pub_sub two_messages "[…]")
broadcast_is_heard_example = broadcast_is_heard two_messages broker "[…]"
