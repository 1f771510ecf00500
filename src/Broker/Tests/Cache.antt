-- ===== src/Broker/Tests/Cache.antt =====
-- The memory broker as a whole at concrete inputs: published messages, expiry, cached sessions.
use anycable_go.Prelude.{
  List, String, [], arith, false, if◌then◌else◌, ltb, none, ok, refl, some, ℕ, ◌++◌, ◌==◌, ◌∷◌, ◌≡◌,
  string_eq, nat_eq,
}
use anycable_go.Prelude.Dict.{IsDict, lookup}
use anycable_go.Broker.Presence.{new_presence_state}
use anycable_go.Broker.Tracker.{new_streams_tracker}
use anycable_go.Broker.Memory.Sweep.{history_since-expire}
use anycable_go.Broker.Memory.Publish.{stamped, recalled, handle_broadcast-history_from}
use anycable_go.Broker.Memory.Sessions.{is_due, restore_session-finish_session}
use anycable_go.Broker.Memstream.History.{IsHistory}
use anycable_go.Common.{PresenceEvent, StreamMessage}
use anycable_go.Broker.Calls
use anycable_go.Broker.Memory
use anycable_go.Broker.Memory.{
  Memory, Config, history_since, restore_session, finish_session, history_from,
}
use anycable_go.Broker.Memstream.{Memstream}

abbrev config : Config
config = record { history_ttl = 5; history_limit = 3; sessions_ttl = 10; presence_ttl = 10 }

abbrev chat : Memstream
chat = record {
  offset = 2;
  deadline = 50;
  low = 1;
  entries =
      record { timestamp = 10; offset = 1; body = "a" }
      ∷ record { timestamp = 12; offset = 2; body = "b" }
      ∷ [];
  ttl = 5;
  limit = 3;
}

abbrev broker : Memory String
broker = record {
  config = config;
  tracker = new_streams_tracker;
  epoch = "e";
  presence = new_presence_state String;
  streams = ("chat", chat) ∷ [];
  sessions = ("s1", "cached") ∷ ("s2", "other") ∷ [];
  expiring = record { deadline = 15; sid = "s2" } ∷ [];
}

abbrev to_json : PresenceEvent String → String
to_json e = e.id

chat-IsHistory : IsHistory chat
chat-IsHistory = record {
  counted = omega arith;
  sequence = (refl, (refl, tt));
  low = refl;
  bounded = omega arith;
  small = omega arith;
}

chat-found : lookup "chat" broker.streams ≡ some chat
unfolding lookup
chat-found = refl

streams-IsDict : IsDict broker.streams
unfolding lookup
streams-IsDict = (refl, tt)

abbrev message : StreamMessage
message = record { stream = "chat"; body = "c"; meta = none; offset = 0; epoch = "" }

handle_broadcast-history_from_example :
    (b' : Memory String) × (old : List StreamMessage) × (Memory.handle_broadcast 14 message broker
      ≡ ok (Calls.broadcast (stamped message broker.epoch 3) ∷ [], b'))
    × (history_from "chat" broker.epoch 1 broker ≡ ok old)
    × (history_from "chat" b'.epoch 1 b' ≡ ok (old ++ recalled 14 message broker chat 1 ∷ []))
    × ((other epoch : String) (o : ℕ)
        → ("chat" == other) ≡ false
        → history_from other epoch o b' ≡ history_from other epoch o broker)
handle_broadcast-history_from_example =
    handle_broadcast-history_from 14 message broker chat 1 refl chat-found chat-IsHistory refl
      (omega arith) (omega arith) (omega arith) (omega arith)

history_since-expire_example :
    history_since "chat" 11 (Memory.expire to_json 16 broker).1 ≡ history_since "chat" 11 broker
history_since-expire_example =
    history_since-expire to_json 16 0 11 "chat" broker chat streams-IsDict chat-found
      (omega arith, (omega arith, tt)) (omega arith) (omega arith)

s1-cached : lookup "s1" broker.sessions ≡ some "cached"
unfolding lookup
s1-cached = refl

s1-fresh : is_due 30 "s1" broker.expiring ≡ false
unfolding is_due
s1-fresh = refl

restore_session-finish_session_example :
    restore_session "s1" (Memory.expire to_json 30 (finish_session 16 "s1" broker)).1
    ≡ (if ltb 26 30 then none else some "cached")
restore_session-finish_session_example =
    restore_session-finish_session to_json 16 30 "s1" "cached" broker (omega arith, omega arith)
      s1-cached s1-fresh
