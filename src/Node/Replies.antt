-- ===== src/Node/Replies.antt =====
-- What node/node.go does with a controller's result: handleCommandReply, handleCallReply and
-- markDisconnectable.
pub mod Pieces
pub mod Spared
pub mod Mirror
use anycable_go.Prelude.{
  Bool, Option, String, false, if◌then◌else◌, is_empty, none, not, some, true, ◌==◌, ◌||◌,
  string_eq, nat_eq,
}
use anycable_go.Node.Subscriptions.{
  remove_channel_streams, remove_channel_stream, add_channel_stream,
}
use anycable_go.Common.Env.{merge_connection_state, merge_channel_state}
use anycable_go.Common.Commands.{CommandResult, CallResult, to_call_result, is_non_negative, ℤ}
use anycable_go.Node.Steps.{
  Op, ◌>>=◌, ◌>>◌, give, get, modify, emit, lock, unlock, when, for_each, hub_unsubscribe_channel,
  broker_unsubscribe, broker_subscribe, broker_broadcast, hub_unsubscribe, hub_subscribe,
  close_connection, transmit,
}

-- What the broker gives back for a stream: the name under which the hub knows it.
module _ {A M : Type 0} (stream_id : String → String) where
  unfoldable pub handle_call_reply : CallResult → Op A M Bool
  handle_call_reply reply = do
    dirty ← elim reply.cstate [
      | none ↦ give false
      | some cstate ↦ (do
        lock
        modify (λ s. record s { env = merge_connection_state cstate s.env })
        unlock
        give true)
    ]
    for_each (λ msg. emit (broker_broadcast msg)) reply.broadcasts
    for_each (λ text. emit (transmit text)) reply.transmissions
    give dirty

  -- `StopAllStreams`: the hub drops the channel, and the broker each stream that was in it.
  pub stop_all : String → Op A M Bool
  stop_all identifier = do
    emit (hub_unsubscribe_channel identifier)
    s ← get
    let (removed, st) = remove_channel_streams identifier s.subscriptions
    modify (λ s'. record s' { subscriptions = st })
    for_each (λ stream. emit (broker_unsubscribe stream)) removed
    give (not (is_empty removed))

  pub stop_stream : String → String → Op A M Unit
  stop_stream identifier stream = do
    emit (broker_unsubscribe stream)
    emit (hub_unsubscribe (stream_id stream) identifier)
    modify (λ s. record s {
      subscriptions = remove_channel_stream identifier (stream_id stream) s.subscriptions;
    })

  pub start_stream : String → String → Op A M Unit
  start_stream identifier stream = do
    emit (broker_subscribe stream)
    emit (hub_subscribe (stream_id stream) identifier)
    modify (λ s. record s {
      subscriptions = add_channel_stream identifier (stream_id stream) s.subscriptions;
    })

  -- The first part of handleCommandReply.
  pub stop_streams : String → CommandResult → Op A M Bool
  unfolding stop_all stop_stream
  stop_streams identifier reply =
      if reply.stop_all_streams then stop_all identifier else elim reply.stopped_streams [
        | none ↦ give false
        | some streams ↦ for_each (stop_stream identifier) streams >> give true
      ]

  -- Whether anything of the session's state has changed. The disconnect is deferred to the end.
  pub handle_command_reply : String → CommandResult → Op A M Bool
  unfolding handle_call_reply stop_streams start_stream
  handle_command_reply identifier reply = do
    stopped ← stop_streams identifier reply
    started ← elim reply.streams [
      | none ↦ give false
      | some streams ↦ for_each (start_stream identifier) streams >> give true
    ]
    merged ← elim reply.istate [
      | none ↦ give false
      | some istate ↦ (do
        lock
        modify (λ s. record s { env = merge_channel_state identifier istate s.env })
        unlock
        give true)
    ]
    called ← handle_call_reply (to_call_result reply)
    when reply.disconnect (close_connection "Command Failed")
    give (stopped || started || merged || called)

-- The mode of the configuration is "always", "never" or "auto".
abbrev pub interested : String → ℤ → Option Bool
interested mode interest =
    if mode == "always"
    then some true
    else if mode == "never"
    then some false
    else if mode == "auto"
    then some (is_non_negative interest)
    else none

unfoldable pub mark_disconnectable : {A M : Type 0} → String → ℤ → Op A M Unit
mark_disconnectable mode interest = elim (interested mode interest) [
  | none ↦ give tt
  | some val ↦ modify (λ s. record s { disconnect_interest = s.disconnect_interest || val })
]
