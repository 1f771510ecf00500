-- ===== src/Broker/Nats/Tests.antt =====
-- The NATS broker at concrete inputs.
use anycable_go.Prelude.{
  All, List, Option, Result, String, [], arith, err, false, none, ok, refl, some, ℕ, ◌+◌, ◌<◌, ◌∷◌,
  ◌≡◌, ◌≤◌, string_eq, nat_eq,
}
use anycable_go.Prelude.Dict.{lookup}
use anycable_go.Common.{StreamMessage}
use anycable_go.Broker.Tracker.{new_streams_tracker}
use anycable_go.Broker.Presence.{new_presence_state}
use anycable_go.Broker.Memory.{Memory, Config, stream_at}
use anycable_go.Broker.Memstream.{Entry}
use anycable_go.Broker.Memstream.Invariant.{IsStream}
use anycable_go.Broker.Nats.Lru.{Lru, fetch, read}
use anycable_go.Broker.Nats.Lru.Lifetime.{fetch_all, fetch_lifetime}
use anycable_go.Broker.Nats.Sync.{StreamSync, restart, new_stream_sync}
use anycable_go.Broker.Nats.Sync.Waits.{
  Punctual, Watch, begins, consumes, next, passes, reads, reader_released,
}
use anycable_go.Broker.Nats.JetStream.{
  JetStream, JsMsg, JsError, deadline_exceeded, stream_name_in_use, key_exists, other,
}
use anycable_go.Broker.Nats.Streams.{Nats, Outside, initializing, initialized, consume_all}
use anycable_go.Broker.Nats.Streams.Copy.{accepted, copied, consume_all-entries}
use anycable_go.Broker.Nats.Publish.{backlog_locked, handle_broadcast, finish_start}
use anycable_go.Broker.Nats.Publish.Backlog.{backlog_stuck}

abbrev config : Config
config = record { history_ttl = 60; history_limit = 2; sessions_ttl = 30; presence_ttl = 10 }

abbrev local : Memory Unit
local = record {
  config = config;
  tracker = new_streams_tracker;
  epoch = "e";
  streams = [];
  sessions = [];
  expiring = [];
  presence = new_presence_state Unit;
}

-- The time to live of the bucket, if there is one.
abbrev slot : JetStream (Option ℕ) Unit Unit
slot = record {
  create_stream = λ name size age j. (none, j);
  publish = λ subject body j. (ok 7, j);
  create_consumer = λ name j. (ok tt, j);
  fetch_no_wait = λ c size j. (ok [], j);
  consume = λ c j. (none, j);
  delete_consumer = λ name c j. j;
  stream_names = λ subject j. ([], j);
  delete_stream = λ name j. j;
  create_key_value =
      λ name ttl j. elim j [ none ↦ (ok tt, some ttl) | some t ↦ (err stream_name_in_use, some t) ];
  key_value = λ name j. (ok tt, j);
  bucket_ttl = λ b j. ((elim j [ none ↦ err (other "no bucket") | some t ↦ ok t ]), j);
  delete_key_value = λ name j. (none, none);
  create_key = λ b k v j. (some key_exists, j);
  put_key = λ b k v j. (none, j);
  get_key = λ b k j. (ok "kept", j);
  keys = λ b j. (ok [], j);
  delete_key = λ b k j. j;
  watch_key = λ b k j. (none, j);
}

abbrev outside : {J : Type 0} → J → Outside J
outside j = record { service = j; sync = []; local = local }

abbrev pub broker : {J B : Type 0} → J → Nats J Unit B
broker j = record {
  config = config;
  tracker = new_streams_tracker;
  epoch = "e";
  kv = none;
  epoch_kv = none;
  jstreams = record { entries = []; ttl = 60000 };
  jconsumers = record { entries = []; ttl = 60000 };
  outside = outside j;
  ready = initializing;
  backlog = [];
  backlog_held = false;
}

abbrev message : StreamMessage
message = record { stream = "chat"; body = "hi"; meta = none; offset = 0; epoch = "" }

abbrev numbered : String → ℕ → JsMsg
numbered body seq = record { body = body; metadata = some (seq, 100) }

-- The second message is delivered twice.
abbrev batch : List JsMsg
batch = numbered "a" 3 ∷ numbered "b" 4 ∷ numbered "b" 4 ∷ numbered "c" 6 ∷ []

new-IsStream : IsStream (copied "chat" (outside tt))
unfolding stream_at lookup
new-IsStream = record { ordered = omega arith; low = refl; bounded = omega arith }

room : 0 < (copied "chat" (outside tt)).limit
unfolding stream_at lookup
room = omega arith

abbrev stored : String → ℕ → Entry
stored body seq = record { timestamp = 100; offset = seq; body = body }

consume_all-entries_example :
    (o' : Outside Unit) × (consume_all 100000 "chat" batch (outside tt) ≡ some o')
    × IsStream (copied "chat" o')
    × ((copied "chat" o').entries ≡ stored "b" 4 ∷ stored "c" 6 ∷ [])
unfolding accepted stream_at lookup
consume_all-entries_example = consume_all-entries 100000 "chat" batch (outside tt) new-IsStream room

abbrev waiting : Nats (Option ℕ) Unit Unit
waiting = broker none

backlog_stuck_example :
    (handle_broadcast slot 1 message waiting ≡ ok ([], record waiting { backlog = message ∷ [] }))
    × (finish_start slot 2 none (record waiting { backlog = message ∷ [] })
        ≡ ok ([], record waiting { backlog = message ∷ []; ready = initialized }))
    × (finish_start slot 2 (some deadline_exceeded) (record waiting { backlog = message ∷ [] })
        ≡ err backlog_locked)
backlog_stuck_example = backlog_stuck slot 1 2 deadline_exceeded message waiting refl tt refl refl

-- Two messages, 40 milliseconds apart, and a reader that comes between them.
abbrev twice : StreamSync
twice = restart 40 (restart 0 new_stream_sync)

in_time : Punctual 40 (restart 0 new_stream_sync)
unfolding restart new_stream_sync
in_time = (omega arith, tt)

watched : Watch 40 twice (some 0)
unfolding restart new_stream_sync
watched = next (next (reads refl (next begins consumes)) (passes 40 (omega arith) in_time)) consumes

reader_released_example : 40 ≤ 0 + 250
reader_released_example = reader_released {s = twice} 0 watched

abbrev made : {S : Type 0} → S → Result JsError String × S
made s = (ok "new", s)

abbrev empty : Lru (List String) String
empty = record { entries = []; ttl = 10 }

missing : read 5 "k" empty ≡ none
unfolding read lookup
missing = refl

uses_early : All (λ t. t ≤ 5 + 10) (9 ∷ 15 ∷ [])
uses_early = (omega arith, (omega arith, tt))

fetch_lifetime_example :
    let (r, m', s') = fetch 5 "k" made (λ v s. v ∷ s) empty [] in
    (r ≡ ok "new")
    × (fetch_all "k" made (λ v s. v ∷ s) (9 ∷ 15 ∷ []) m' s' ≡ (ok "new" ∷ ok "new" ∷ [], m', s'))
    × (read 15 "k" m' ≡ some "new")
    × (read 16 "k" m' ≡ none)
fetch_lifetime_example =
    fetch_lifetime 5 "k" made made (λ v s. v ∷ s) (λ v s. v ∷ s) empty [] "new" [] (9 ∷ 15 ∷ []) 16
      tt missing refl uses_early (omega arith)
