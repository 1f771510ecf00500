-- ===== src/Broker/Calls.antt =====
-- Broadcaster of broker/broker.go: the calls that a broker makes of the pub/sub layer, in order,
-- and what that layer is subscribed to after them.
use anycable_go.Prelude.{
  Bool, List, String, [], false, if◌then◌else◌, refl, true, ◌++◌, ◌==◌, ◌∷◌, ◌≡◌, string_eq, nat_eq,
}
use anycable_go.Common.{StreamMessage, RemoteCommandMessage}

pub data Call : Type 0 where
  broadcast : StreamMessage → Call
  broadcast_command : RemoteCommandMessage → Call
  subscribe : String → Call
  unsubscribe : String → Call

-- One call turns the subscription to its own stream on or off.
unfoldable pub listen_after : Call → String → Bool → Bool
listen_after (broadcast m) name b = b
listen_after (broadcast_command m) name b = b
listen_after (subscribe s) name b = if s == name then true else b
listen_after (unsubscribe s) name b = if s == name then false else b

unfoldable pub listening : List Call → String → Bool → Bool
listening [] name b = b
listening (c ∷ cs) name b = listening cs name (listen_after c name b)

pub listening-append :
    (cs ds : List Call) (name : String) (b : Bool)
    → listening (cs ++ ds) name b ≡ listening ds name (listening cs name b)
unfolding listening
listening-append [] ds name b = refl
listening-append (c ∷ cs) ds name b = listening-append cs ds name (listen_after c name b)
