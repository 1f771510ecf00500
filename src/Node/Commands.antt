-- ===== src/Node/Commands.antt =====
-- The commands of a client in node/node.go, from HandleCommand on. The timers of keepalive and
-- resetPong are left out.
pub mod Locks
pub mod Release
pub mod Confirm
use anycable_go.Prelude.{
  Bool, List, Option, Result, String, [], err, false, if◌then◌else◌, ltb, none, not, ok, panic,
  some, true, ℕ, ◌&&◌, ◌++◌, ◌==◌, ◌||◌, ◌∷◌, string_eq, nat_eq,
}
use anycable_go.Prelude.Dict.{lookup}
use anycable_go.Node.Subscriptions.{has_channel, add_channel, remove_channel, streams_for}
use anycable_go.Common.{
  PresenceEvent, Reply, StreamMessage, empty_reply, PresenceInfo, presence_type, Json, to_reply_for,
}
use anycable_go.Common.Env.{SessionEnv, remove_channel_state, get_channel_state_field}
use anycable_go.Common.Commands.{
  no_data, other, text, CommandResult, Message, error, HistoryRequest, success, HistoryPosition,
  Data, text, other,
}
use anycable_go.Node.Steps.{
  Op, ◌>>=◌, ◌>>◌, give, get, modify, emit, lock, unlock, when, for_each, crash, commit_session,
  node_broadcast, broker_broadcast, presence_add, send_presence, presence_remove, send,
}
use anycable_go.Node.Replies.{handle_command_reply, mark_disconnectable}

-- The controller and the broker, by their answers during one command, and the configuration. A
-- controller's answer is a result, which may be nil, and whether there is an error.
pub record World (A M : Type 0) : Type 0 where
  pub controller_subscribe : String → SessionEnv → String → String → Option CommandResult × Bool
  pub controller_unsubscribe : String → SessionEnv → String → String → Option CommandResult × Bool
  pub controller_perform :
      String → SessionEnv → String → String → String → Option CommandResult × Bool
  pub stream_id : String → String
  pub history_from : String → String → ℕ → Option (List StreamMessage)
  pub history_since : String → ℕ → Option (List StreamMessage)
  pub presence_add : String → String → String → Option A → Option (PresenceEvent A) × Bool
  pub presence_remove : String → String → Option (PresenceEvent A) × Bool
  pub presence_info : String → Option (PresenceInfo A)
  pub event_to_json : PresenceEvent A → String
  pub data_to_json : Data A → String
  pub json : Json M
  pub disconnect_mode : String

pub data NodeError : Type 0 where
  unknown_command already_subscribed unknown_subscription controller_failed not_text : NodeError
  history_missing history_failed no_presence_stream presence_missing presence_failed : NodeError

abbrev pub Answer : Type 0
Answer = Result NodeError (Option CommandResult)

-- The names that the application keeps in a channel's state.
abbrev pub whisper_stream_state : String
whisper_stream_state = "$w"

abbrev pub presence_stream_state : String
presence_stream_state = "$p"

-- `res == nil || res.Status == common.ERROR`.
abbrev pub is_failed : Option CommandResult → Bool
is_failed none = true
is_failed (some res) = res.status == error

abbrev pub is_missing {ℓ} : {X : Type ℓ} → Option X → Bool
is_missing none = true
is_missing (some x) = false

module _ {A M : Type 0} (w : World A M) where
  unfoldable pub commit : Op A M Unit
  commit = get >>= λ s. when s.resumable (emit commit_session)

  -- The message that tells the channel of a change in presence.
  pub announce : String → Option (PresenceEvent A) → Op A M Unit
  announce stream none = give tt
  announce stream (some event) = emit (
      node_broadcast (record {
        stream = stream;
        body = w.event_to_json event;
        meta =
            some (record { exclude_socket = ""; broadcast_type = presence_type; transient = true });
        offset = 0;
        epoch = "";
      }))

  -- handlePresenceReply: a join where `joins` is true, or else a leave.
  pub handle_presence_reply : String → Bool → Option (PresenceEvent A) → Op A M (Option NodeError)
  unfolding announce
  handle_presence_reply identifier joins presence = do
    s ← get
    let stream = get_channel_state_field identifier presence_stream_state s.env
    if stream == ""
        then give (some no_presence_stream)
        else if joins
        then elim presence [
          | none ↦ give (some presence_missing)
          | some event ↦ (do
            let (msg, failed) = w.presence_add stream s.uid event.id event.info
            emit (presence_add stream event.id event.info)
            announce stream msg
            give (if failed then some presence_failed else none))
        ]
        else (do
          let (msg, failed) = w.presence_remove stream s.uid
          emit (presence_remove stream)
          announce stream msg
          give (if failed then some presence_failed else none))

  -- The position that a client asks a stream's history from.
  abbrev pub position_of : HistoryRequest → String → Option HistoryPosition
  position_of request stream = elim request.streams [ none ↦ none | some m ↦ lookup stream m ]

  -- One turn of the loop of retreiveHistory; `none` is the broker's error.
  pub stream_history : HistoryRequest → String → Option (List StreamMessage)
  stream_history request stream = elim (position_of request stream) [
    | some pos ↦ w.history_from stream pos.epoch pos.offset
    | none ↦ if ltb 0 request.since then w.history_since stream request.since else some []
  ]

  pub retrieve_history : HistoryRequest → List String → Option (List StreamMessage)
  unfolding stream_history
  retrieve_history request [] = some []
  retrieve_history request (stream ∷ streams) =
      let rest = retrieve_history request streams in
      elim (stream_history request stream) [
        | none ↦ none
        | some xs ↦ elim rest [ none ↦ none | some ys ↦ some (xs ++ ys) ]
      ]

  -- A reply that says no more than its type and its channel.
  abbrev pub plain : String → String → Reply M
  plain kind identifier = record (empty_reply M) { kind = kind; identifier = identifier }

  -- The guard of most commands: the lock is taken for the test alone.
  pub check_channel : String → Op A M Bool
  check_channel identifier = do lock; s ← get; unlock; give (has_channel identifier s.subscriptions)

  pub history : Message A → Op A M (Option NodeError)
  unfolding check_channel retrieve_history
  history msg = do
    known ← check_channel msg.identifier
    s ← get
    if not known
        then give (some unknown_subscription)
        else if msg.history.since == 0 && is_missing msg.history.streams
        then give (some history_missing)
        else elim (retrieve_history msg.history (streams_for msg.identifier s.subscriptions)) [
          | none ↦ emit (send (plain "reject_history" msg.identifier)) >> give (some history_failed)
          | some backlog ↦ (do
            for_each (λ el. emit (send (to_reply_for w.json msg.identifier el))) backlog
            emit (send (plain "confirm_history" msg.identifier))
            give none)
        ]

  -- What a confirmed subscription goes on to do; errors of it are only logged.
  pub after_subscribe : Message A → Op A M Unit
  unfolding commit history handle_presence_reply
  after_subscribe msg = do
    commit
    when (ltb 0 msg.history.since || not (is_missing msg.history.streams))
        (do e ← history msg; give tt)
    when (not (is_missing msg.presence))
        (do e ← handle_presence_reply msg.identifier true msg.presence; give tt)

  -- Whether the subscription is confirmed; the channel is then on the session's list.
  pub admit : String → Option CommandResult → Bool → Op A M Bool
  admit identifier res failed = if failed then give false else elim res [
    | none ↦ crash
    | some r ↦
        if r.status == success
        then modify (λ s. record s { subscriptions = add_channel identifier s.subscriptions })
          >> give true
        else give false
  ]

  -- `if res != nil { … }`.
  pub take_reply : String → Option CommandResult → Op A M Unit
  take_reply identifier none = give tt
  take_reply identifier (some res) = do
    dirty ← handle_command_reply w.stream_id identifier res
    mark_disconnectable w.disconnect_mode res.disconnect_interest

  -- What is left once the lock is given back.
  pub finish_subscribe : Message A → Bool → Option CommandResult → Op A M Answer
  unfolding take_reply after_subscribe
  finish_subscribe msg confirmed res = do
    take_reply msg.identifier res
    when confirmed (after_subscribe msg)
    give (ok res)

  -- The early return on a controller's error keeps the lock, as in the code.
  pub subscribe : Message A → Op A M Answer
  unfolding admit finish_subscribe
  subscribe msg = do
    lock
    s ← get
    if has_channel msg.identifier s.subscriptions
        then unlock >> give (err already_subscribed)
        else (do
          let (res, failed) = w.controller_subscribe s.uid s.env s.env.identifiers msg.identifier
          if failed && is_failed res then give (err controller_failed) else (do
            confirmed ← admit msg.identifier res failed
            unlock
            finish_subscribe msg confirmed res))

  -- The channel goes from the session's state, and its result must stop all of its streams. The
  -- presence stream that the channel had comes back.
  pub drop_channel : String → Option CommandResult → Bool → Op A M (String × Option CommandResult)
  drop_channel identifier res failed = if failed then give ("", res) else elim res [
    | none ↦ crash
    | some r ↦ (do
      s ← get
      modify (λ s'. record s' {
        env = remove_channel_state identifier s'.env;
        subscriptions = remove_channel identifier s'.subscriptions;
      })
      give (
        get_channel_state_field identifier presence_stream_state s.env,
        some (record r { stop_all_streams = true }),
      ))
  ]

  abbrev pub reply_if_any : String → Option CommandResult → Op A M Unit
  reply_if_any identifier none = give tt
  reply_if_any identifier (some res) = handle_command_reply w.stream_id identifier res >> give tt

  -- What is left once the lock is given back.
  pub finish_unsubscribe : String → String → Option CommandResult → Op A M Answer
  unfolding commit
  finish_unsubscribe identifier stream res = do
    reply_if_any identifier res
    commit
    when (not (stream == "")) (emit (presence_remove stream))
    give (ok res)

  pub unsubscribe : Message A → Op A M Answer
  unfolding drop_channel finish_unsubscribe
  unsubscribe msg = do
    lock
    s ← get
    if not (has_channel msg.identifier s.subscriptions)
        then unlock >> give (err unknown_subscription)
        else (do
          let (res, failed) = w.controller_unsubscribe s.uid s.env s.env.identifiers msg.identifier
          if failed && is_failed res then give (err controller_failed) else (do
            (stream, res') ← drop_channel msg.identifier res failed
            unlock
            finish_unsubscribe msg.identifier stream res'))

  pub perform : Message A → Op A M Answer
  unfolding check_channel commit
  perform msg = do
    known ← check_channel msg.identifier
    s ← get
    if not known then give (err unknown_subscription) else elim msg.body [
      | text body ↦ (do
        let (res, failed) = w.controller_perform s.uid s.env s.env.identifiers msg.identifier body
        if failed && is_failed res then give (err controller_failed) else elim res [
          | none ↦ give (ok none)
          | some r ↦ (do
            dirty ← handle_command_reply w.stream_id msg.identifier r
            when dirty commit
            give (ok (some r)))
        ])
      | other a ↦ give (err not_text)
      | no_data ↦ give (err not_text)
    ]

  pub whisper : Message A → Op A M (Option NodeError)
  whisper msg = do
    s ← get
    let stream = get_channel_state_field msg.identifier whisper_stream_state s.env
    when (not (stream == "")) (
        emit (
          broker_broadcast (record {
            stream = stream;
            body = w.data_to_json msg.body;
            meta = some (record { exclude_socket = s.uid; broadcast_type = ""; transient = true });
            offset = 0;
            epoch = "";
          })))
    give none

  -- The options of the request are never decoded, as in the code: encoding decoded JSON does not
  -- fail.
  pub presence : Message A → Op A M (Option NodeError)
  unfolding check_channel
  presence msg = do
    known ← check_channel msg.identifier
    s ← get
    let stream = get_channel_state_field msg.identifier presence_stream_state s.env
    if not known
        then give (some unknown_subscription)
        else if stream == ""
        then give (some no_presence_stream)
        else elim (w.presence_info stream) [
          | none ↦ (do
            emit (send_presence msg.identifier (record { kind = "error"; total = 0; records = [] }))
            give (some presence_failed))
          | some info ↦ emit (send_presence msg.identifier info) >> give none
        ]

  -- PresenceJoin and PresenceLeave.
  pub change_presence : Bool → Message A → Op A M (Option NodeError)
  unfolding check_channel handle_presence_reply
  change_presence joins msg = do
    known ← check_channel msg.identifier
    if known
        then handle_presence_reply msg.identifier joins msg.presence
        else give (some unknown_subscription)

  abbrev error_of : Op A M Answer → Op A M (Option NodeError)
  error_of m = do answer ← m; give (elim answer [ ok res ↦ none | err e ↦ some e | panic ↦ none ])

  pub handle_command : Message A → Op A M (Option NodeError)
  unfolding subscribe unsubscribe perform history presence change_presence whisper
  handle_command msg =
      if msg.command == "pong"
      then give none
      else if msg.command == "subscribe"
      then error_of (subscribe msg)
      else if msg.command == "unsubscribe"
      then error_of (unsubscribe msg)
      else if msg.command == "message"
      then error_of (perform msg)
      else if msg.command == "history"
      then history msg
      else if msg.command == "presence"
      then presence msg
      else if msg.command == "join"
      then change_presence true msg
      else if msg.command == "leave"
      then change_presence false msg
      else if msg.command == "whisper"
      then whisper msg
      else give (some unknown_command)
