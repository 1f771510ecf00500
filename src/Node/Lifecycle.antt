-- ===== src/Node/Lifecycle.antt =====
-- How a session begins and ends in node/node.go: Authenticate, Authenticated, TryRestoreSession,
-- Disconnect and DisconnectNow.
pub mod Resubscribed
pub mod Resumed
pub mod Admission
pub mod Tests
use anycable_go.Prelude.{
  Bool, List, Option, String, [], false, if◌then◌else◌, none, not, some, true, ◌&&◌, ◌==◌,
  string_eq, nat_eq,
}
use anycable_go.Prelude.Dict.{Dict}
use anycable_go.Common.{empty_reply}
use anycable_go.Common.Env.{SessionEnv}
use anycable_go.Common.Commands.{ConnectResult, connect_call_result, success, pos}
use anycable_go.Node.Subscriptions.{keys, channels}
use anycable_go.Node.Cache.{Codec, restore_from_cache}
use anycable_go.Node.Commands.{World, commit}
use anycable_go.Node.Replies.{handle_call_reply, mark_disconnectable}
use anycable_go.Node.Steps.{
  Op, ◌>>=◌, ◌>>◌, give, get, modify, emit, crash, when, for_each, hub_add_session,
  broker_subscribe, close_connection, controller_disconnect, finish_session, hub_subscribe, send,
  finish_presence, hub_remove_session, hub_remove_session_later, enqueue_disconnect,
}

-- The answers to a connection: the cached session by its ID, where `none` is an error and
-- `some none` says that there is none, and the controller's result with whether there is an error.
pub record Greeting (A M : Type 0) : Type 0 where
  pub world : World A M
  pub codec : Codec
  pub restore_session : String → Option (Option String)
  pub controller_authenticate : String → SessionEnv → Option ConnectResult × Bool

-- WelcomeType of common/common.go.
abbrev pub welcome_type : String
welcome_type = "welcome"

abbrev pub restored_result : ConnectResult
restored_result = record {
  identifier = "";
  transmissions = [];
  broadcasts = [];
  cstate = none;
  disconnect_interest = pos 0;
  status = success;
}

module _ {A M : Type 0} (g : Greeting A M) where
  unfoldable pub authenticated : String → Op A M Unit
  authenticated ids = do
    modify (λ s. record s { env = record s.env { identifiers = ids }; connected = true })
    emit hub_add_session

  -- The two loops that subscribe a restored session to its streams again.
  unfoldable pub resubscribe : String → List String → Op A M Unit
  resubscribe identifier streams =
      for_each
        (λ stream.
          emit (broker_subscribe stream)
          >> emit (hub_subscribe (g.world.stream_id stream) identifier))
        streams

  unfoldable pub resubscribe_all : Dict String (Dict String Bool) → Op A M Unit
  unfolding resubscribe
  resubscribe_all channels = for_each (λ entry. resubscribe (entry.0) (keys (entry.1))) channels

  -- What follows once the cached state has been taken in.
  unfoldable pub resume : Op A M Unit
  unfolding resubscribe_all
  resume = do
    modify (λ s. record s { connected = true })
    emit hub_add_session
    s ← get
    resubscribe_all s.subscriptions.channels
    emit (
        send (record (empty_reply M) {
          kind = welcome_type;
          sid = s.uid;
          restored = true;
          restored_ids = keys s.subscriptions.channels;
        }))
    commit g.world

  unfoldable pub try_restore_session : Op A M Bool
  unfolding resume
  try_restore_session = do
    s ← get
    if s.prev_sid == "" then give false else elim (g.restore_session s.prev_sid) [
      | none ↦ give false
      | some found ↦ elim found [
        | none ↦ give false
        | some cached ↦ (do
          taken ← restore_from_cache g.codec cached
          if taken then resume >> give true else give false)
      ]
    ]

  unfoldable pub settle : ConnectResult → Op A M Unit
  settle res = do
    dirty ← handle_call_reply g.world.stream_id (connect_call_result res)
    mark_disconnectable g.world.disconnect_mode res.disconnect_interest
    commit g.world

  -- What follows a result of the controller. The disconnect is deferred to the end.
  unfoldable pub greet : Bool → ConnectResult → Op A M Unit
  unfolding authenticated settle
  greet disconnects res = do
    when (res.status == success) (authenticated res.identifier)
    settle res
    when (not (res.status == success) && disconnects) (close_connection "Auth Failed")

  -- `none` is an error. The option says whether a failure disconnects.
  unfoldable pub authenticate : Bool → Op A M (Option ConnectResult)
  unfolding try_restore_session greet
  authenticate disconnects = do
    s ← get
    restored ← (if s.resumable then try_restore_session else give false)
    if restored then give (some restored_result) else (do
      s' ← get
      let (res, failed) = g.controller_authenticate s'.uid s'.env
      if failed
          then close_connection "Auth Error" >> give none
          else elim res [ none ↦ crash | some r ↦ greet disconnects r >> give (some r) ])

module _ {A M : Type 0} where
  pub disconnect_now : Op A M Unit
  disconnect_now = do
    s ← get
    emit (controller_disconnect s.env.identifiers (channels s.subscriptions))

  -- Disconnect of the node, which may be shutting down.
  pub disconnect_session : Bool → Op A M Unit
  unfolding disconnect_now
  disconnect_session shutting_down = do
    s ← get
    when s.resumable (emit finish_session)
    emit finish_presence
    if shutting_down
        then emit hub_remove_session >> when s.disconnect_interest disconnect_now
        else emit hub_remove_session_later >> when s.disconnect_interest (emit enqueue_disconnect)
