-- ===== src/Broker/Memory.antt =====
-- Memory of broker/memory.go: the broker that keeps history, sessions and presence in memory.
-- Each method takes the current time, in seconds, as an argument.
pub mod Publish
pub mod Sessions
pub mod Store
pub mod Sweep
use anycable_go.Prelude.{
  List, Option, Result, String, [], err, if◌then◌else◌, ltb, map, none, not, ok, panic, some, ℕ,
  ◌++◌, ◌+◌, ◌==◌, ◌>>=◌, ◌∷◌, string_eq, nat_eq,
}
use anycable_go.Prelude.Dict.{Dict, delete, lookup, put}
use anycable_go.Common.{StreamMessage, RemoteCommandMessage, PresenceEvent, is_transient}
use anycable_go.Broker.Calls
use anycable_go.Broker.Calls.{Call}
use anycable_go.Broker.Tracker
use anycable_go.Broker.Tracker.{StreamsTracker, new_streams_tracker}
use anycable_go.Broker.Memstream
use anycable_go.Broker.Memstream.{Entry, Memstream, StreamError}
use anycable_go.Broker.Presence.{PresenceState, new_presence_state}
use anycable_go.Broker.Presence.Expiry

-- The fields of Config (broker/config.go) that the broker reads.
pub record Config : Type 0 where
  pub history_ttl : ℕ
  pub history_limit : ℕ
  pub sessions_ttl : ℕ
  pub presence_ttl : ℕ

pub record ExpireSessionEntry : Type 0 where
  pub deadline : ℕ
  pub sid : String

-- `A` is the type of the presence info. A cached session is the text that it is stored as.
pub record Memory (A : Type 0) : Type 0 where
  pub config : Config
  pub tracker : StreamsTracker
  pub epoch : String
  pub streams : Dict String Memstream
  pub sessions : Dict String String
  pub expiring : List ExpireSessionEntry
  pub presence : PresenceState A

pub data HistoryError : Type 0 where
  unknown_epoch : String → String → HistoryError
  stream_not_found : HistoryError
  in_stream : StreamError → HistoryError

abbrev pub lift : {A : Type 0} → Result StreamError A → Result HistoryError A
lift (ok a) = ok a
lift (err e) = err (in_stream e)
lift panic = panic

-- `&memstream{…}`: a new stream, with no entry.
abbrev pub new_stream : Config → Memstream
new_stream c = record {
  offset = 0;
  deadline = 0;
  low = 0;
  entries = [];
  ttl = c.history_ttl;
  limit = c.history_limit;
}

pub handle_command : RemoteCommandMessage → List Call
handle_command msg = Calls.broadcast_command msg ∷ []

module _ {A : Type 0} where
  pub new_memory_broker : String → Config → Memory A
  new_memory_broker epoch c = record {
    config = c;
    tracker = new_streams_tracker;
    epoch = epoch;
    streams = [];
    sessions = [];
    expiring = [];
    presence = new_presence_state A;
  }

  pub set_epoch : String → Memory A → Memory A
  set_epoch v b = record b { epoch = v }

  -- The stream of that name, or a new one where there is none.
  unfoldable pub stream_at : String → Memory A → Memstream
  stream_at name b = elim (lookup name b.streams) [ none ↦ new_stream b.config | some ms ↦ ms ]

  pub add : ℕ → String → String → Memory A → Result HistoryError (ℕ × Memory A)
  unfolding stream_at
  add now name body b = elim (Memstream.add now body (stream_at name b)) [
    | ok (offset, ms) ↦ ok (offset, record b { streams = put name ms b.streams })
    | err e ↦ err (in_stream e)
    | panic ↦ panic
  ]

  -- A refused insert leaves the stream, which may be new, in the map.
  pub store : ℕ → String → String → ℕ → Option ℕ → Memory A → Result HistoryError ℕ × Memory A
  unfolding stream_at
  store now name body offset ts b =
      let ms = stream_at name b in
      elim (Memstream.insert now body offset ts ms) [
        | ok (o, ms') ↦ (ok o, record b { streams = put name ms' b.streams })
        | err e ↦ (err (in_stream e), record b { streams = put name ms b.streams })
        | panic ↦ (panic, b)
      ]

  pub handle_broadcast : ℕ → StreamMessage → Memory A → Result HistoryError (List Call × Memory A)
  unfolding add
  handle_broadcast now msg b = if is_transient msg then ok (Calls.broadcast msg ∷ [], b) else (do
    (offset, b') ← add now msg.stream msg.body b
    ok (Calls.broadcast (record msg { epoch = b.epoch; offset = offset }) ∷ [], b'))

  pub subscribe : String → Memory A → String × List Call × Memory A
  subscribe stream b =
      let (is_new, t) = Tracker.add stream b.tracker in
      (stream, (if is_new then Calls.subscribe stream ∷ [] else []), record b { tracker = t })

  pub unsubscribe : String → Memory A → String × List Call × Memory A
  unsubscribe stream b =
      let (is_last, t) = Tracker.remove stream b.tracker in
      (stream, (if is_last then Calls.unsubscribe stream ∷ [] else []), record b { tracker = t })

-- The message that the history callbacks build from an entry.
pub to_message : String → String → Entry → StreamMessage
to_message name epoch e = record {
  stream = name;
  body = e.body;
  meta = none;
  offset = e.offset;
  epoch = epoch;
}

module _ {A : Type 0} where
  pub history_from : String → String → ℕ → Memory A → Result HistoryError (List StreamMessage)
  unfolding to_message
  history_from name epoch offset b =
      if not (b.epoch == epoch)
      then err (unknown_epoch epoch b.epoch)
      else elim (lookup name b.streams) [
        | none ↦ err stream_not_found
        | some ms ↦ (do
          es ← lift (Memstream.filter_by_offset offset ms)
          ok (map (to_message name b.epoch) es))
      ]

  pub history_since : String → ℕ → Memory A → List StreamMessage
  unfolding to_message
  history_since name ts b = elim (lookup name b.streams) [
    | none ↦ []
    | some ms ↦ map (to_message name b.epoch) (Memstream.filter_by_time ts ms.entries)
  ]

  -- `cached` is what the session's `ToCacheEntry` gives: its text, or an error.
  pub commit_session : {E : Type 0} → String → Result E String → Memory A → Result E (Memory A)
  commit_session sid cached b = do
    text ← cached
    ok (record b { sessions = put sid text b.sessions })

  pub restore_session : String → Memory A → Option String
  restore_session from b = lookup from b.sessions

  pub finish_session : ℕ → String → Memory A → Memory A
  finish_session now sid b = elim (lookup sid b.sessions) [
    | none ↦ b
    | some text ↦
        let entry : ExpireSessionEntry = record {
          sid = sid;
          deadline = now + b.config.sessions_ttl;
        } in
        record b { expiring = b.expiring ++ entry ∷ [] }
  ]

-- One pass over the streams: each is cut, and gone once its own deadline has passed.
pub expire_streams : ℕ → Dict String Memstream → Dict String Memstream
expire_streams now [] = []
expire_streams now ((name, ms) ∷ m) =
    let rest = expire_streams now m in
    let ms' = Memstream.expire now ms in if ltb ms'.deadline now then rest else (name, ms') ∷ rest

-- The loop over the finished sessions, up to the first whose deadline has not passed.
pub expire_sessions :
    ℕ → List ExpireSessionEntry → Dict String String → List ExpireSessionEntry × Dict String String
expire_sessions now [] m = ([], m)
expire_sessions now (e ∷ es) m =
    let next = expire_sessions now es (delete e.sid m) in
    if ltb e.deadline now then next else (e ∷ es, m)

-- `to_json` writes a presence event as JSON text. The broadcaster is given the leave messages.
pub expire : {A : Type 0} → (PresenceEvent A → String) → ℕ → Memory A → List Call × Memory A
unfolding expire_streams expire_sessions
expire to_json now b =
    let (expiring, sessions) = expire_sessions now b.expiring b.sessions in
    let (left, presence) = Expiry.expire_presence to_json now b.presence in
    (
      map Calls.broadcast left,
      record b {
        streams = expire_streams now b.streams;
        sessions = sessions;
        expiring = expiring;
        presence = presence;
      },
    )
