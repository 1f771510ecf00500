-- ===== src/Broker/Nats/Streams.antt =====
-- The streams of broker/nats.go: each has a JetStream stream, and a consumer that copies its messages
-- to the memory broker. `now` is in milliseconds, of which the memory broker sees the seconds.
pub mod Copy
pub mod Numbered
use anycable_go.Prelude.{
  Bool, List, Option, Result, String, [], err, if◌then◌else◌, none, ok, panic, some, ℕ, ◌*◌, ◌++◌,
  ◌/◌, ◌==◌, ◌∷◌, string_eq, nat_eq,
}
use Prim.Native.String
use anycable_go.Broker.Tracker.{StreamsTracker}
use anycable_go.Broker.Memory
use anycable_go.Broker.Memory.{Memory, Config}
use anycable_go.Broker.Nats.Lru
use anycable_go.Broker.Nats.Lru.{Lru}
use anycable_go.Broker.Nats.Sync.{Synchronizer, touch}
use anycable_go.Broker.Nats.Sync
use anycable_go.Broker.Nats.JetStream.{JetStream, JsMsg, JsError, retry_on_error}
use anycable_go.Broker.Nats.JetStream
use anycable_go.Common.{StreamMessage}

-- What making and giving up a stream or a consumer works on.
pub record Outside (J : Type 0) : Type 0 where
  pub service : J
  pub sync : Synchronizer
  pub local : Memory Unit

pub data Readiness : Type 0 where
  initializing : Readiness
  initialized : Readiness
  failed : JsError → Readiness

-- `kv` and `epoch_kv` are nil before the initialization. `backlog_held` is the lock backlogMu.
pub record Nats (J C B : Type 0) : Type 0 where
  pub config : Config
  pub tracker : StreamsTracker
  pub epoch : String
  pub kv : Option B
  pub epoch_kv : Option B
  pub jstreams : Lru (Outside J) String
  pub jconsumers : Lru (Outside J) C
  pub outside : Outside J
  pub ready : Readiness
  pub backlog : List StreamMessage
  pub backlog_held : Bool

abbrev pub stream_prefix : String
stream_prefix = "_ac_"

abbrev pub prefixed : String → String
prefixed stream = String.◌++◌ stream_prefix stream

-- What a sequence of calls that have no result gives: an error, or nothing.
abbrev pub failing : {A : Type 0} → Option JsError → A → Result JsError A
failing none a = ok a
failing (some e) a = err e

-- The stream is there already if its name is in use.
abbrev existing : Option JsError → String → Result JsError String
existing none stream = ok stream
existing (some JetStream.stream_name_in_use) stream = ok stream
existing (some e) stream = err e

module _ {J : Type 0} where
  -- `none`: the memory broker panics.
  pub consume_message : ℕ → String → JsMsg → Outside J → Option (Outside J)
  consume_message now stream msg o =
      let o1 : Outside J = record o { sync = touch now stream o.sync } in
      elim msg.metadata [
        | none ↦ some o1
        | some at ↦
            let (r, local) = Memory.store (now / 1000) stream msg.body at.0 (some at.1) o1.local in
            elim r [ panic ↦ none | _ ↦ some (record o1 { local = local }) ]
      ]

  pub consume_all : ℕ → String → List JsMsg → Outside J → Option (Outside J)
  unfolding consume_message
  consume_all now stream [] o = some o
  consume_all now stream (msg ∷ msgs) o = elim (consume_message now stream msg o) [
    | none ↦ none
    | some o' ↦ consume_all now stream msgs o'
  ]

module _ {J C B : Type 0} (js : JetStream J C B) where
  pub create_stream : Config → String → Outside J → Result JsError String × Outside J
  create_stream c stream o =
      let (e, j) =
        js.create_stream (prefixed stream) c.history_limit (c.history_ttl * 1000) o.service in
      (existing e stream, record o { service = j })

  pub ensure_once : String → ℕ → Nats J C B → Result JsError String × Nats J C B
  unfolding create_stream
  ensure_once stream now n =
      let (r, m, o) =
        Lru.fetch now stream (create_stream n.config stream) (λ v o. o) n.jstreams n.outside in
      (r, record n { jstreams = m; outside = o })

  pub ensure_stream_exists : ℕ → String → Nats J C B → Result JsError String × Nats J C B
  unfolding ensure_once
  ensure_stream_exists now stream n = retry_on_error 500 (ensure_once stream) 5 now n

  pub publish_message : ℕ → String → String → Nats J C B → Result JsError ℕ × Nats J C B
  publish_message now stream body n =
      let (ack, j) = js.publish (prefixed stream) body n.outside.service in
      (
        ack,
        record n {
          outside = record n.outside { service = j; sync = touch now stream n.outside.sync };
        },
      )

  pub add : ℕ → String → String → Nats J C B → Result JsError ℕ × Nats J C B
  unfolding ensure_stream_exists publish_message
  add now stream body n =
      let (r, n') = ensure_stream_exists now stream n in
      elim r [
        | ok _ ↦ publish_message now stream body n'
        | err e ↦ (err e, n')
        | panic ↦ (panic, n')
      ]

  -- `0` stands for an unlimited history, of which 100 messages are fetched.
  abbrev pub batch_size : Config → ℕ
  batch_size c = if c.history_limit == 0 then 100 else c.history_limit

  -- The messages that wait are consumed, and the others are when they come.
  pub start_consumer : Config → ℕ → String → C → Outside J → Result JsError C × Outside J
  unfolding consume_all
  start_consumer c now stream cons o =
      let (batch, j) = js.fetch_no_wait cons (batch_size c) o.service in
      let o1 : Outside J = record o { service = j } in
      elim batch [
        | err e ↦ (err e, o1)
        | panic ↦ (panic, o1)
        | ok msgs ↦ elim (consume_all now stream msgs o1) [
          | none ↦ (panic, o1)
          | some o2 ↦
              let (e, j2) = js.consume cons o2.service in
              (failing e cons, record o2 { service = j2 })
        ]
      ]

  pub create_consumer : Config → ℕ → String → Outside J → Result JsError C × Outside J
  unfolding start_consumer
  create_consumer c now stream o =
      let (made, j) = js.create_consumer (prefixed stream) o.service in
      elim made [
        | ok cons ↦
            start_consumer c now stream cons
              (record o { service = j; sync = touch now stream o.sync })
        | err e ↦ (err e, record o { service = j })
        | panic ↦ (panic, record o { service = j })
      ]

  pub drop_consumer : String → C → Outside J → Outside J
  drop_consumer stream cons o = record o {
    sync = Sync.remove stream o.sync;
    service = js.delete_consumer (prefixed stream) cons o.service;
  }

  pub consume_once : String → ℕ → Nats J C B → Result JsError C × Nats J C B
  unfolding create_consumer drop_consumer
  consume_once stream now n =
      let (r, m, o) =
        Lru.fetch now stream (create_consumer n.config now stream) (drop_consumer stream)
          n.jconsumers n.outside in
      (r, record n { jconsumers = m; outside = o })

  -- Its error is only logged.
  pub add_stream_consumer : ℕ → String → Nats J C B → Result JsError C × Nats J C B
  unfolding ensure_stream_exists consume_once
  add_stream_consumer now stream n =
      let (r, n') = ensure_stream_exists now stream n in
      elim r [
        | ok _ ↦ retry_on_error 500 (consume_once stream) 5 now n'
        | err e ↦ (err e, n')
        | panic ↦ (panic, n')
      ]
