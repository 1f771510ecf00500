-- ===== src/Hub/Tests.antt =====
-- The hub at concrete inputs: one gate, two sessions, and a session that leaves a channel.
use anycable_go.Prelude.{
  ==_iff, Bool-cases, String, [], ap, arith, false, if◌then◌else◌, inl, inr, length, none, not,
  refl, some, true, ℕ, ◌&&◌, ◌<◌, ◌==◌, ◌||◌, ◌∷◌, ◌≡◌, string_eq, nat_eq,
}
use anycable_go.Prelude.Dict.{lookup, put}
use anycable_go.Hub.Channel.{unsubscribe_session_from_channel_skips}
use anycable_go.Hub.Gates.Subscriptions.{subscribed}
use anycable_go.Hub.Registry.{
  IsListed, remove_session-IsListed, is_listed, subscribe_session-IsListed, add_session-IsListed,
  new_hub-IsListed,
}
use anycable_go.Hub.Gates.Delivery.{count_to, Built, perform_broadcast_once}
use anycable_go.Common.{Json}
use anycable_go.Hub.Gates.Invariant.{IsGate}
use mathlib.Core.Bool.{false≢true}
use anycable_go.Hub.{
  Hub, HubSessionInfo, Directory, on_gate, StreamMessage, index, subscribe_session, remove_session,
  unsubscribe_session_from_channel, unsubscribe_session, add_session, new_hub,
}
use anycable_go.Hub.Gates
use anycable_go.Hub.Gates.{Gate, new_gate, perform_broadcast, subscribe, is_excluded}
use anycable_go.Hub.Index.{index-lt}
use anycable_go.Hub.Sharding.{hub_subscribed, hub_subscribed-subscribe}

abbrev chat : String
chat = "chat"

abbrev room : String
room = "room"

abbrev guest : ℕ
guest = 3

abbrev dir : Directory
dir = record { id = λ r. if r == 1 then "a" else "b"; identifiers = λ r. "user" }

abbrev gate : Gate
gate = record {
  streams = ("chat", (1, ("room", true) ∷ []) ∷ (2, ("room", true) ∷ []) ∷ []) ∷ [];
  sender = [];
}

gate-IsGate : IsGate gate
unfolding lookup
gate-IsGate =
    ((refl, tt), (((refl, (refl, tt)), refl, (((refl, tt), refl), (((refl, tt), refl), tt))), tt))

abbrev message : StreamMessage
message = record {
  stream = "chat";
  body = "hi";
  meta = some (record { exclude_socket = "b"; broadcast_type = ""; transient = false });
  offset = 0;
  epoch = "";
}

abbrev json : Json String
json = record { decode = λ text. none; text = λ text. text }

index-lt_example : index "chat" 16 < 16
index-lt_example = index-lt "chat" 16 (omega arith)

perform_broadcast_once_example :
    ((r : ℕ) (i : String)
      → count_to r i (perform_broadcast json dir message gate)
        ≡ (if subscribed "chat" r i gate && not (is_excluded json dir message r) then 1 else 0))
    × Built json dir message (perform_broadcast json dir message gate)
perform_broadcast_once_example = perform_broadcast_once json dir message gate gate-IsGate

hub_subscribed-subscribe_example :
    hub_subscribed "chat" 3 "room" (on_gate "chat" (Gates.subscribe 3 "chat" "room") (gate ∷ []))
    ≡ ((chat == chat && guest == guest && room == room)
        || hub_subscribed "chat" 3 "room" (gate ∷ []))
hub_subscribed-subscribe_example =
    hub_subscribed-subscribe "chat" 3 "room" (gate ∷ []) (omega arith) "chat" 3 "room"

-- A session that has registered, and subscribed to nothing yet.
abbrev hub : Hub
hub = add_session dir 1 (new_hub 2)

new : lookup "a" (new_hub 2).sessions ≡ none
unfolding lookup new_hub
new = refl

alone : (r : ℕ) → dir.id r ≡ dir.id 1 → r ≡ 1
alone r e = elim (Bool-cases (r == 1)) [
  | inl same ↦ (==_iff r 1).0 same
  | inr other ↦ absurd (false≢true (ap (λ s. s == "a") (rw other at e)))
]

hub-IsListed : IsListed dir hub
hub-IsListed = add_session-IsListed dir 1 (new_hub 2) new (new_hub-IsListed dir 2 (omega arith))

subscribe_session-IsListed_example :
    IsListed dir (subscribe_session dir 1 "chat" "room" hub)
    × IsListed dir (unsubscribe_session dir 1 "chat" "room" hub)
subscribe_session-IsListed_example =
    subscribe_session-IsListed dir 1 hub alone "chat" "room" hub-IsListed

abbrev joined : Hub
joined = subscribe_session dir 1 "chat" "room" hub

joined-IsListed : IsListed dir joined
joined-IsListed = (subscribe_session-IsListed dir 1 hub alone "chat" "room" hub-IsListed).0

joined-found :
    lookup "a" joined.sessions ≡ some (record { session = 1; streams = ("chat", "room") ∷ [] })
unfolding lookup put add_session subscribe_session new_hub
joined-found = refl

remove_session-IsListed_example :
    ((s : String) (r : ℕ) (i : String)
      → hub_subscribed s r i (remove_session dir 1 joined).gates
        ≡ (hub_subscribed s r i joined.gates && not (1 == r)))
    × ((uid : String)
        → lookup uid (remove_session dir 1 joined).sessions
          ≡ (if "a" == uid then none else lookup uid joined.sessions))
    × IsListed dir (remove_session dir 1 joined)
remove_session-IsListed_example =
    remove_session-IsListed dir 1 joined alone
      (record { session = 1; streams = ("chat", "room") ∷ [] }) joined-found joined-IsListed

-- Three streams of one channel.
abbrev triple : HubSessionInfo
triple = record { session = 1; streams = ("x", "room") ∷ ("y", "room") ∷ ("z", "room") ∷ [] }

abbrev busy : Hub
busy = record (new_hub 2) { sessions = ("a", triple) ∷ [] }

busy-some_gate : 0 < length busy.gates
busy-some_gate = (new_hub-IsListed dir 2 (omega arith)).some_gate

busy-found : lookup "a" busy.sessions ≡ some triple
unfolding lookup
busy-found = refl

unsubscribe_session_from_channel_skips_example :
    let h' = unsubscribe_session_from_channel dir 1 "room" busy in
    (hub_subscribed "y" 1 "room" h'.gates ≡ hub_subscribed "y" 1 "room" busy.gates)
    × (is_listed (lookup "a" h'.sessions) "y" "room" ≡ true)
unsubscribe_session_from_channel_skips_example =
    unsubscribe_session_from_channel_skips dir 1 busy busy-some_gate triple busy-found "room" "x"
      "y" "room" ("z", "room") [] refl refl refl
