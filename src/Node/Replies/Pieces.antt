-- ===== src/Node/Replies/Pieces.antt =====
-- A relation that the pieces of handleCommandReply in node/node.go obey, the whole of it obeys.
use anycable_go.Prelude.{List, Option, String, [], false, none, refl, some, true, ◌||◌, ◌∷◌, ◌≡◌}
use anycable_go.Common.{StreamMessage}
use anycable_go.Common.Env.{SessionEnv, merge_connection_state, merge_channel_state}
use anycable_go.Common.Commands.{CommandResult, CallResult, to_call_result}
use anycable_go.Node.Steps.{◌>>◌, Op, Session, give, lock, modify, unlock, emit, for_each, done}
use anycable_go.Node.Obeys.{
  Change, IsChange, Obeys, Obeys-bind, Obeys-option, Obeys-for_each, Obeys-when, Obeys-give,
}
use anycable_go.Node.Replies.{
  handle_command_reply, handle_call_reply, stop_streams, start_stream, broker_broadcast, transmit,
  add_channel_stream, close_connection, broker_subscribe, hub_subscribe, stop_all,
}

pub start_stream-done :
    (A M : Type 0) (stream_id : String → String) (id stream : String) (s : Session)
    → start_stream {A = A} {M = M} stream_id id stream s
      ≡ done tt
          (record s { subscriptions = add_channel_stream id (stream_id stream) s.subscriptions })
          (broker_subscribe stream ∷ hub_subscribe (stream_id stream) id ∷ [])
unfolding start_stream
start_stream-done A M stream_id id stream s = refl

pub record Pieces {A M : Type 0} (R : Change A M) (stream_id : String → String) (id : String)
    : Type 0 where
  pub change : IsChange R
  pub env_change :
      (f : SessionEnv → SessionEnv)
      → Obeys R (lock >> (modify (λ s. record s { env = f s.env }) >> (unlock >> give true)))
  pub broadcasts : (msg : StreamMessage) → Obeys R (emit (broker_broadcast msg))
  pub transmits : (text : String) → Obeys R (emit (transmit text))
  pub disconnects : (reason : String) → Obeys R (close_connection reason)
  pub starts : (stream : String) → Obeys R (start_stream stream_id id stream)

module _ {A M : Type 0} (R : Change A M) (c : IsChange R) where
  pub streams_change :
      (f : String → Op A M Unit) (o : Option (List String))
      → ((stream : String) → Obeys R (f stream))
      → Obeys R (elim o [ none ↦ give false | some streams ↦ for_each f streams >> give true ])
  streams_change f o h = Obeys-option R c o _ _ (Obeys-give R c false) (λ streams.
      Obeys-bind R c _ (λ u. give true) (Obeys-for_each R c f streams h) (λ u. Obeys-give R c true))

module _ {A M : Type 0} {R : Change A M} {stream_id : String → String} {id : String}
    (p : Pieces R stream_id id) where
  handle_call_reply-Obeys : (reply : CallResult) → Obeys R (handle_call_reply stream_id reply)
  unfolding handle_call_reply
  handle_call_reply-Obeys reply =
      let c = p.change in
      Obeys-bind R c _ _
        (Obeys-option R c reply.cstate _ _ (Obeys-give R c false)
          (λ cstate. p.env_change (merge_connection_state cstate)))
        (λ dirty.
          Obeys-bind R c _ _
            (Obeys-for_each R c (λ msg. emit (broker_broadcast msg)) reply.broadcasts p.broadcasts)
            (λ u.
              Obeys-bind R c _ (λ u. give dirty)
                (Obeys-for_each R c (λ text. emit (transmit text)) reply.transmissions p.transmits)
                (λ u. Obeys-give R c dirty)))

  pub handle_command_reply-Obeys :
      (reply : CommandResult)
      → Obeys R (stop_streams stream_id id reply)
      → Obeys R (handle_command_reply stream_id id reply)
  unfolding handle_command_reply
  handle_command_reply-Obeys reply stops =
      let c = p.change in
      Obeys-bind R c _ _ stops (λ stopped.
        Obeys-bind R c _ _ (streams_change R c (start_stream stream_id id) reply.streams p.starts)
          (λ started.
            Obeys-bind R c _ _
              (Obeys-option R c reply.istate _ _ (Obeys-give R c false)
                (λ istate. p.env_change (merge_channel_state id istate)))
              (λ merged.
                Obeys-bind R c _ _ (handle_call_reply-Obeys (to_call_result reply)) (λ called.
                  Obeys-bind R c _ (λ u. give (stopped || started || merged || called))
                    (Obeys-when R c reply.disconnect _ (p.disconnects "Command Failed"))
                    (λ u. Obeys-give R c _)))))

-- A result that stops all streams has no other stop.
pub stop_streams-stop_all :
    (A M : Type 0) (stream_id : String → String) (id : String) (reply : CommandResult)
    → reply.stop_all_streams ≡ true
    → stop_streams {A = A} {M = M} stream_id id reply ≡ stop_all stream_id id
unfolding stop_streams
stop_streams-stop_all A M stream_id id reply h = rw (stop_streams, h) refl
