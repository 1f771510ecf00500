-- ===== src/Broker/Legacy/Upstream.antt =====
-- What the pub/sub layer is subscribed to, against the tracker of broker/broker.go.
use anycable_go.Prelude.{
  ==_iff, List, String, [], arith, false, if◌then◌else◌, refl, ◌∷◌, ◌≡◌, string_eq, nat_eq,
}
use anycable_go.Common.{StreamMessage}
use anycable_go.Broker.Calls
use anycable_go.Broker.Calls.{listening, listen_after, listening-append}
use anycable_go.Broker.Tracker
use anycable_go.Broker.Tracker.{
  has-empty, StreamsTracker, add-fst, has-add, has-remove, remove_tracked,
}
use anycable_go.Broker.Legacy.{
  LegacyBroker, Request, broadcast, command, subscribe_to, unsubscribe_from, handle_broadcast,
  handle_command, subscribe, unsubscribe, handle, run, new_legacy_broker,
}

handle-listening :
    (r : Request) (b : LegacyBroker) (name : String)
    → listening (handle r b).0 name (Tracker.has name b.tracker)
      ≡ Tracker.has name (handle r b).1.tracker
unfolding handle handle_broadcast handle_command subscribe unsubscribe listening listen_after
handle-listening (broadcast msg) b name = ground arith
handle-listening (command msg) b name = refl
handle-listening (subscribe_to s) b name =
    ground (arith, add-fst s b.tracker, has-add s name b.tracker, ==_iff s name)
handle-listening (unsubscribe_from s) b name =
    ground (arith, has-remove s name b.tracker, remove_tracked s b.tracker, ==_iff s name)

-- After any sequence of requests to a broker, the pub/sub layer listens to a stream, as far as the
-- calls made of it say, exactly when the broker's tracker has the stream.
pub run-listening :
    (rs : List Request) (b : LegacyBroker) (name : String)
    → listening (run rs b).0 name (Tracker.has name b.tracker)
      ≡ Tracker.has name (run rs b).1.tracker
unfolding run listening
run-listening [] b name = refl
run-listening (r ∷ rs) b name =
    rw listening-append (rw handle-listening (run-listening rs (handle r b).1 name))

-- A new broker, after any sequence of requests, hands a message on exactly when the pub/sub layer
-- listens to the message's stream.
pub handle_broadcast-run :
    (rs : List Request) (msg : StreamMessage)
    → handle_broadcast msg (run rs new_legacy_broker).1 ≡ (
        if listening (run rs new_legacy_broker).0 msg.stream false
        then Calls.broadcast msg ∷ []
        else [])
unfolding handle_broadcast
handle_broadcast-run rs msg =
    ground (arith, run-listening rs new_legacy_broker msg.stream, has-empty msg.stream)
