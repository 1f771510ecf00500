-- ===== src/Broker/Tests/Streams.antt =====
-- The tracker, the legacy broker and the streams of the memory broker at concrete inputs.
use anycable_go.Prelude.{
  List, String, [], arith, err, false, refl, some, true, ℕ, ◌∷◌, ◌≡◌, string_eq, nat_eq,
}
use anycable_go.Prelude.Dict.{lookup}
use anycable_go.Broker.Memstream.Retention.{filter_by_offset_gap}
use anycable_go.Broker.Legacy.Upstream.{run-listening}
use anycable_go.Broker.Memstream.Invariant.{IsStream}
use anycable_go.Broker.Memstream.History.{IsHistory, after_offset, filter_by_offset-IsHistory}
use anycable_go.Broker.Calls.{listening}
use anycable_go.Broker.Tracker
use anycable_go.Broker.Tracker.{StreamsTracker, remove_times, remove-add_again}
use anycable_go.Broker.Legacy.{new_legacy_broker, Request, run, subscribe_to, unsubscribe_from}
use anycable_go.Broker.Memstream.{Entry, Memstream, filter_by_offset, too_new}

abbrev tracked : StreamsTracker
tracked = record { store = ("chat", 1) ∷ [] }

chat-tracked : lookup "chat" tracked.store ≡ some 1
unfolding lookup
chat-tracked = refl

remove-add_again_example :
    let t = remove_times 3 "chat" (Tracker.add "chat" tracked).1 in
    (t ≡ (Tracker.add "chat" tracked).1)
    × (Tracker.has "chat" t ≡ true)
    × (Tracker.remove "chat" t ≡ (false, t))
remove-add_again_example =
    remove-add_again 3 "chat" tracked 1 chat-tracked (omega arith) (omega arith)

abbrev requests : List Request
requests = subscribe_to "chat" ∷ subscribe_to "news" ∷ unsubscribe_from "chat" ∷ []

run-listening_example :
    listening
      (run requests new_legacy_broker).0
      "news"
      (Tracker.has "news" new_legacy_broker.tracker)
    ≡ Tracker.has "news" (run requests new_legacy_broker).1.tracker
run-listening_example = run-listening requests new_legacy_broker "news"

abbrev entry : ℕ → ℕ → String → Entry
entry time offset body = record { timestamp = time; offset = offset; body = body }

-- Two entries, at a limit of two.
abbrev full : Memstream
full = record {
  offset = 3;
  deadline = 50;
  low = 2;
  entries = entry 10 2 "b" ∷ entry 12 3 "c" ∷ [];
  ttl = 5;
  limit = 2;
}

full-IsHistory : IsHistory full
full-IsHistory = record {
  counted = omega arith;
  sequence = (refl, (refl, tt));
  low = refl;
  bounded = omega arith;
  small = omega arith;
}

-- A stream whose offsets were set from outside: 2, and then 7.
abbrev sparse : Memstream
sparse = record full { offset = 7; entries = entry 10 2 "b" ∷ entry 12 7 "c" ∷ [] }

sparse-IsStream : IsStream sparse
sparse-IsStream = record {
  ordered = (omega arith, (omega arith, omega arith));
  low = refl;
  bounded = omega arith;
}

filter_by_offset-IsHistory_example : filter_by_offset 2 full ≡ after_offset 2 full full.entries
filter_by_offset-IsHistory_example = filter_by_offset-IsHistory 2 full full-IsHistory (omega arith)

filter_by_offset_gap_example : (o : ℕ) × (filter_by_offset 7 sparse ≡ err (too_new 7 o))
filter_by_offset_gap_example =
    filter_by_offset_gap sparse sparse-IsStream (omega arith) (omega arith) (omega arith)
