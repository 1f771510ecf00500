-- ===== src/Node/Replies/Spared.antt =====
-- What handleCommandReply of node/node.go asks of the hub when it need not stop all streams of the
-- channel: no call drops a channel as a whole.
use anycable_go.Prelude.{
  Bool, List, String, [], ap, arith, false, refl, sym, true, ℕ, ◌++◌, ◌+◌, ◌∙◌, ◌∷◌, ◌≡◌,
}
use anycable_go.Common.Env.{SessionEnv}
use anycable_go.Common.Commands.{CommandResult}
use anycable_go.Node.Subscriptions.{add_channel_stream, remove_channel_stream}
use anycable_go.Node.Steps.{
  Session, Effect, hub_subscribe, hub_unsubscribe, hub_unsubscribe_channel, broker_subscribe,
  broker_unsubscribe, broker_broadcast, transmit, disconnect, lock, unlock, modify, emit, give,
  close_connection, ◌>>◌, done, Step, panics, waits,
}
use anycable_go.Node.Obeys.{Change, IsChange, Obeys}
use anycable_go.Node.Replies.{handle_command_reply, start_stream, stop_stream, stop_streams}
use anycable_go.Node.Replies.Pieces.{
  Pieces, handle_command_reply-Obeys, start_stream-done, streams_change,
}

abbrev dropped : {A M : Type 0} → Effect A M → ℕ
dropped (hub_unsubscribe_channel id) = 1
dropped _ = 0

-- How many of the effects drop a channel in the hub.
unfoldable pub channels_dropped : {A M : Type 0} → List (Effect A M) → ℕ
channels_dropped [] = 0
channels_dropped (e ∷ es) = dropped e + channels_dropped es

channels_dropped-append :
    {A M : Type 0} (es fs : List (Effect A M))
    → channels_dropped (es ++ fs) ≡ channels_dropped es + channels_dropped fs
unfolding channels_dropped
channels_dropped-append [] fs = omega arith
channels_dropped-append (e ∷ es) fs = omega (arith, channels_dropped-append es fs)

abbrev Spares : {A M : Type 0} → Session → List (Effect A M) → Session → Type 0
Spares s es t = channels_dropped es ≡ 0

module _ (A M : Type 0) (id : String) where
  abbrev R : Change A M
  R = Spares

  c : IsChange R
  unfolding channels_dropped
  c = record {
    same = λ s. refl;
    trans = λ s t u es fs f g. omega (arith, channels_dropped-append es fs, f, g);
  }

  spared_emit : (e : Effect A M) → dropped e ≡ 0 → Obeys R (emit e)
  unfolding channels_dropped
  spared_emit e h s free = (tt, s, e ∷ [], refl, free, omega (arith, h))

  spared_env :
      (f : SessionEnv → SessionEnv)
      → Obeys R (lock >> (modify (λ s. record s { env = f s.env }) >> (unlock >> give true)))
  unfolding channels_dropped
  spared_env f s free =
      (true, record s { env = f s.env; locked = false }, [], rw free refl, refl, refl)

  module _ (stream_id : String → String) where
    starts : (stream : String) → Obeys R (start_stream stream_id id stream)
    unfolding channels_dropped
    starts stream s free =
        let name = stream_id stream in
        (
          tt,
          record s { subscriptions = add_channel_stream id name s.subscriptions },
          broker_subscribe stream ∷ hub_subscribe name id ∷ [],
          start_stream-done A M stream_id id stream s,
          free,
          refl,
        )

    stops : (stream : String) → Obeys R (stop_stream stream_id id stream)
    unfolding stop_stream channels_dropped
    stops stream s free =
        let name = stream_id stream in
        (
          tt,
          record s { subscriptions = remove_channel_stream id name s.subscriptions },
          broker_unsubscribe stream ∷ hub_unsubscribe name id ∷ [],
          refl,
          free,
          refl,
        )

    closes : (reason : String) → Obeys R (close_connection reason)
    unfolding channels_dropped
    closes reason s free =
        (tt, record s { connected = false }, disconnect reason ∷ [], refl, free, refl)

    pieces : Pieces R stream_id id
    pieces = record {
      change = c;
      env_change = spared_env;
      broadcasts = λ msg. spared_emit (broker_broadcast msg) refl;
      transmits = λ text. spared_emit (transmit text) refl;
      disconnects = closes;
      starts = starts;
    }

    stop_some :
        (reply : CommandResult)
        → reply.stop_all_streams ≡ false
        → Obeys R (stop_streams stream_id id reply)
    unfolding stop_streams
    stop_some reply some_only =
        rw some_only (streams_change R c (stop_stream stream_id id) reply.stopped_streams stops)

    abbrev effects : {X : Type 0} → Step A M X → List (Effect A M)
    effects (done x s es) = es
    effects panics = []
    effects waits = []

    pub handle_command_reply-spared :
        (reply : CommandResult) (s t : Session) (dirty : Bool) (es : List (Effect A M))
        → reply.stop_all_streams ≡ false
        → s.locked ≡ false
        → handle_command_reply stream_id id reply s ≡ done dirty t es
        → channels_dropped es ≡ 0
    handle_command_reply-spared reply s t dirty es some_only free e =
        let (dirty', t', fs, e', free', r) =
          handle_command_reply-Obeys pieces reply (stop_some reply some_only) s free in
        ap (λ x. channels_dropped (effects x)) (sym e ∙ e') ∙ r
