-- ===== src/Broker/Legacy.antt =====
-- LegacyBroker of broker/broker.go: the broker without history. Subscribe and Unsubscribe are one
-- step each, though the tracker gives its lock back before the broadcaster is called.
pub mod Upstream
use anycable_go.Prelude.{List, String, [], if◌then◌else◌, ◌++◌, ◌∷◌}
use anycable_go.Common.{StreamMessage, RemoteCommandMessage}
use anycable_go.Broker.Calls
use anycable_go.Broker.Calls.{Call}
use anycable_go.Broker.Tracker
use anycable_go.Broker.Tracker.{StreamsTracker, new_streams_tracker}

pub record LegacyBroker : Type 0 where
  pub tracker : StreamsTracker

abbrev pub new_legacy_broker : LegacyBroker
new_legacy_broker = record { tracker = new_streams_tracker }

unfoldable pub handle_broadcast : StreamMessage → LegacyBroker → List Call
handle_broadcast msg b = if Tracker.has msg.stream b.tracker then Calls.broadcast msg ∷ [] else []

unfoldable pub handle_command : RemoteCommandMessage → List Call
handle_command msg = Calls.broadcast_command msg ∷ []

-- The stream's name comes back as its identifier.
pub subscribe : String → LegacyBroker → String × List Call × LegacyBroker
subscribe stream b =
    let (is_new, t) = Tracker.add stream b.tracker in
    (stream, (if is_new then Calls.subscribe stream ∷ [] else []), record { tracker = t })

pub unsubscribe : String → LegacyBroker → String × List Call × LegacyBroker
unsubscribe stream b =
    let (is_last, t) = Tracker.remove stream b.tracker in
    (stream, (if is_last then Calls.unsubscribe stream ∷ [] else []), record { tracker = t })

-- What the node asks of its broker.
pub data Request : Type 0 where
  broadcast : StreamMessage → Request
  command : RemoteCommandMessage → Request
  subscribe_to : String → Request
  unsubscribe_from : String → Request

pub handle : Request → LegacyBroker → List Call × LegacyBroker
handle (broadcast msg) b = (handle_broadcast msg b, b)
handle (command msg) b = (handle_command msg, b)
handle (subscribe_to s) b = let (id, cs, b') = subscribe s b in (cs, b')
handle (unsubscribe_from s) b = let (id, cs, b') = unsubscribe s b in (cs, b')

pub run : List Request → LegacyBroker → List Call × LegacyBroker
run [] b = ([], b)
run (r ∷ rs) b = let (cs, b') = handle r b in let (ds, b'') = run rs b' in (cs ++ ds, b'')
