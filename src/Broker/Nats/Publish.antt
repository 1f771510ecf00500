-- ===== src/Broker/Nats/Publish.antt =====
-- The broker of broker/nats.go: what is published, subscribed to and read, and what waits until
-- JetStream can be reached.
pub mod Backlog
pub mod Numbered
use anycable_go.Prelude.{
  List, Option, Result, String, [], err, false, if◌then◌else◌, none, ok, panic, some, true, ℕ, ◌*◌,
  ◌++◌, ◌>>=◌, ◌∷◌,
}
use anycable_go.Common.{StreamMessage, RemoteCommandMessage, is_transient}
use anycable_go.Broker.Calls
use anycable_go.Broker.Calls.{Call}
use anycable_go.Broker.Tracker
use anycable_go.Broker.Memory
use anycable_go.Broker.Memory.{Config, HistoryError, new_memory_broker}
use anycable_go.Broker.Nats.Lru.{new_lru}
use anycable_go.Broker.Nats.Sync.{must_wait}
use anycable_go.Broker.Nats.JetStream.{JetStream, JsError}
use anycable_go.Broker.Nats.Streams.{
  Nats, Outside, Readiness, initializing, initialized, failed, add_stream_consumer,
}
use anycable_go.Broker.Nats.Streams

pub data NatsError : Type 0 where
  not_ready : NatsError
  unavailable : JsError → NatsError
  no_value : String → NatsError
  from_service : JsError → NatsError
  in_history : HistoryError → NatsError
  no_presence : NatsError

-- A lock that the goroutine holds itself, so that it waits for ever.
pub data Deadlock : Type 0 where
  backlog_locked : Deadlock

-- Ready, with its timeout: the error, if any.
unfoldable pub ready_error : Readiness → Option NatsError
ready_error initializing = some not_ready
ready_error initialized = none
ready_error (failed e) = some (unavailable e)

-- `fresh` is the epoch that the memory broker draws for itself, until the shared one is known.
pub new_nats_broker : {J C B : Type 0} → J → String → Config → Nats J C B
new_nats_broker j fresh c = record {
  config = c;
  tracker = Tracker.new_streams_tracker;
  epoch = "";
  kv = none;
  epoch_kv = none;
  jstreams = new_lru (c.history_ttl * 1000);
  jconsumers = new_lru (c.history_ttl * 1000);
  outside = record { service = j; sync = []; local = new_memory_broker fresh c };
  ready = initializing;
  backlog = [];
  backlog_held = false;
}

pub handle_command : RemoteCommandMessage → List Call
handle_command msg = Calls.broadcast_command msg ∷ []

abbrev in_copy : {A : Type 0} → Result HistoryError A → Result NatsError A
in_copy (ok a) = ok a
in_copy (err e) = err (in_history e)
in_copy panic = panic

module _ {J C B : Type 0} where
  pub write_epoch : String → Nats J C B → Nats J C B
  write_epoch v n = record n {
    epoch = v;
    outside = record n.outside { local = Memory.set_epoch v n.outside.local };
  }

  pub backlog_add : StreamMessage → Nats J C B → Result Deadlock (Nats J C B)
  backlog_add msg n =
      if n.backlog_held
      then err backlog_locked
      else ok (record n { backlog = n.backlog ++ msg ∷ [] })

  pub unsubscribe : String → Nats J C B → String × List Call × Nats J C B
  unsubscribe stream n =
      let (is_last, t) = Tracker.remove stream n.tracker in
      (stream, (if is_last then Calls.unsubscribe stream ∷ [] else []), record n { tracker = t })

  -- `none`: the reader waits until the stream is idle.
  pub history_from :
      String → String → ℕ → Nats J C B → Option (Result NatsError (List StreamMessage))
  unfolding ready_error
  history_from stream epoch offset n = elim (ready_error n.ready) [
    | some e ↦ some (err e)
    | none ↦
        if must_wait stream n.outside.sync
        then none
        else some (in_copy (Memory.history_from stream epoch offset n.outside.local))
  ]

  pub history_since : String → ℕ → Nats J C B → Option (Result NatsError (List StreamMessage))
  unfolding ready_error
  history_since stream since n = elim (ready_error n.ready) [
    | some e ↦ some (err e)
    | none ↦
        if must_wait stream n.outside.sync
        then none
        else some (ok (Memory.history_since stream since n.outside.local))
  ]

module _ {J C B : Type 0} (js : JetStream J C B) where
  pub handle_broadcast : ℕ → StreamMessage → Nats J C B → Result Deadlock (List Call × Nats J C B)
  unfolding backlog_add ready_error
  handle_broadcast now msg n =
      if is_transient msg then ok (Calls.broadcast msg ∷ [], n) else elim (ready_error n.ready) [
        | some e ↦ (do n' ← backlog_add msg n; ok ([], n'))
        | none ↦
            let (r, n') = Streams.add js now msg.stream msg.body n in
            elim r [
              | ok offset ↦
                  ok (Calls.broadcast (record msg { epoch = n'.epoch; offset = offset }) ∷ [], n')
              | err e ↦ ok ([], n')
              | panic ↦ panic
            ]
      ]

  pub flush_all : ℕ → List StreamMessage → Nats J C B → Result Deadlock (List Call × Nats J C B)
  unfolding handle_broadcast
  flush_all now [] n = ok ([], n)
  flush_all now (msg ∷ msgs) n = do
    (calls, n') ← handle_broadcast now msg n
    (more, n2) ← flush_all now msgs n'
    ok (calls ++ more, n2)

  pub backlog_flush : ℕ → Nats J C B → Result Deadlock (List Call × Nats J C B)
  unfolding flush_all
  backlog_flush now n = if n.backlog_held then err backlog_locked else (do
    (calls, n') ← flush_all now n.backlog (record n { backlog_held = true })
    ok (calls, record n' { backlog = []; backlog_held = false }))

  -- The end of the goroutine of Start, with what the initialization gave. An error is also sent to
  -- the caller's channel.
  pub finish_start : ℕ → Option JsError → Nats J C B → Result Deadlock (List Call × Nats J C B)
  unfolding backlog_flush
  finish_start now none n = ok ([], record n { ready = initialized })
  finish_start now (some e) n = backlog_flush now (record n { ready = failed e })

  pub subscribe : ℕ → String → Nats J C B → Result Deadlock (String × List Call × Nats J C B)
  subscribe now stream n =
      let (is_new, t) = Tracker.add stream n.tracker in
      let n1 : Nats J C B = record n { tracker = t } in
      if is_new
      then (let (r, n2) = add_stream_consumer js now stream n1 in
          elim r [ panic ↦ panic | _ ↦ ok (stream, Calls.subscribe stream ∷ [], n2) ])
      else ok (stream, [], n1)
