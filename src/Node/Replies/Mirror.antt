-- ===== src/Node/Replies/Mirror.antt =====
-- The session's own record of its streams against the hub's: handleCommandReply of node/node.go
-- changes both alike.
use anycable_go.Prelude.{
  Bool, List, String, [], ap, false, is_empty, map, not, refl, sym, true, ◌&&◌, ◌++◌, ◌==◌, ◌||◌,
  ◌∙◌, ◌∷◌, ◌≡◌, string_eq, nat_eq,
}
use anycable_go.Node.Replies.Pieces.{Pieces, handle_command_reply-Obeys, streams_change}
use anycable_go.Node.Replies.Spared.{channels_dropped, handle_command_reply-spared}
use anycable_go.Node.Subscriptions.{
  joined, has_channel, has_channel-add_channel_stream, has_channel-remove_channel_stream,
  joined-add_channel_stream, joined-remove_channel_stream, has_channel-remove_channel_streams,
  joined-remove_channel_streams,
}
use anycable_go.Node.Steps.{
  Session, Effect, hub_subscribe, hub_unsubscribe, hub_unsubscribe_channel, lock, emit, done,
  close_connection, disconnect, and_then, behind,
}
use anycable_go.Node.Obeys.{Change, IsChange, Obeys, Obeys-if, Obeys-option, Obeys-give}
use anycable_go.Common.Env.{SessionEnv}
use anycable_go.Node.Replies.{
  handle_command_reply, start_stream, stop_stream, for_each, broker_unsubscribe, stop_all,
  CommandResult, remove_channel_streams, broker_broadcast, transmit, ◌>>◌, give, ◌>>=◌, modify,
  add_channel_stream, remove_channel_stream, unlock, broker_subscribe, stop_streams,
  mark_disconnectable, ℤ, interested,
}

-- Whether the hub has the session on the stream in the channel, after one effect. A call that drops
-- a channel is taken at its word; the hub's loop skips streams there (Hub.Channel), so where a
-- controller stops all streams of a channel that has some, this is not what the hub does.
abbrev pub after_effect : {A M : Type 0} → Effect A M → String → String → Bool → Bool
after_effect (hub_subscribe s i) channel stream on = (i == channel && s == stream) || on
after_effect (hub_unsubscribe s i) channel stream on = on && not (i == channel && s == stream)
after_effect (hub_unsubscribe_channel i) channel stream on = on && not (i == channel)
after_effect _ channel stream on = on

unfoldable pub after_effects : {A M : Type 0} → List (Effect A M) → String → String → Bool → Bool
after_effects [] channel stream on = on
after_effects (e ∷ es) channel stream on =
    after_effects es channel stream (after_effect e channel stream on)

pub after_effects-append :
    {A M : Type 0} (es fs : List (Effect A M)) (channel stream : String) (on : Bool)
    → after_effects (es ++ fs) channel stream on
      ≡ after_effects fs channel stream (after_effects es channel stream on)
unfolding after_effects
after_effects-append [] fs channel stream on = refl
after_effects-append (e ∷ es) fs channel stream on =
    after_effects-append es fs channel stream (after_effect e channel stream on)

-- A channel that the session has stays, and the streams of all channels change as in the hub.
abbrev pub Mirrors : {A M : Type 0} → String → Session → List (Effect A M) → Session → Type 0
Mirrors id s es t =
    has_channel id s.subscriptions ≡ true
    → (has_channel id t.subscriptions ≡ true)
      × ((channel stream : String)
          → joined channel stream t.subscriptions
            ≡ after_effects es channel stream (joined channel stream s.subscriptions))

pub Mirrors-IsChange : {A M : Type 0} (id : String) → IsChange {A = A} {M = M} (Mirrors id)
unfolding after_effects
Mirrors-IsChange id = record {
  same = λ s h. (h, λ channel stream. refl);
  trans = λ s t u es fs f g h.
      let (h', first) = f h in
      let (h'', second) = g h' in
      (
        h'',
        λ channel stream.
            second channel stream
            ∙ ap (after_effects fs channel stream) (first channel stream)
            ∙ sym (after_effects-append es fs channel stream _),
      );
}

-- Changes of a session that leave its subscriptions alone, without an effect.
pub calm :
    (A M : Type 0) (id : String) (s t : Session)
    → t.subscriptions ≡ s.subscriptions
    → Mirrors {A = A} {M = M} id s [] t
unfolding after_effects
calm A M id s t e h = (ap (has_channel id) e ∙ h, λ channel stream. ap (joined channel stream) e)

module _ (A M : Type 0) (id : String) where
  abbrev R : Change A M
  R = Mirrors id

  c : IsChange R
  c = Mirrors-IsChange id

  -- The environment changes under the lock.
  env_change :
      (f : SessionEnv → SessionEnv)
      → Obeys R (lock >> (modify (λ s. record s { env = f s.env }) >> (unlock >> give true)))
  unfolding after_effects
  env_change f s free = (
    true,
    record s { env = f s.env; locked = false },
    [],
    rw free refl,
    refl,
    λ h. (h, λ channel stream. refl),
  )

  -- A piece that emits what the hub does not see, and leaves the subscriptions alone.
  pub quiet_emit :
      (e : Effect A M)
      → ((channel stream : String) (on : Bool) → after_effect e channel stream on ≡ on)
      → Obeys R (emit e)
  unfolding after_effects
  quiet_emit e q s free =
      (tt, s, e ∷ [], refl, free, λ h. (h, λ channel stream. sym (q channel stream _)))

  closes : (reason : String) → Obeys R (close_connection reason)
  unfolding after_effects
  closes reason s free = (
    tt,
    record s { connected = false },
    disconnect reason ∷ [],
    refl,
    free,
    λ h. (h, λ channel stream. refl),
  )

  pub mark_disconnectable-Mirrors :
      (mode : String) (interest : ℤ) → Obeys R (mark_disconnectable mode interest)
  unfolding mark_disconnectable
  mark_disconnectable-Mirrors mode interest =
      Obeys-option R c (interested mode interest) _ _ (Obeys-give R c tt) (λ val s free. (
        tt,
        record s { disconnect_interest = s.disconnect_interest || val },
        [],
        refl,
        free,
        calm A M id s (record s { disconnect_interest = s.disconnect_interest || val }) refl,
      ))

  module _ (stream_id : String → String) where
    start_stream-Mirrors : (stream : String) → Obeys R (start_stream stream_id id stream)
    unfolding start_stream after_effects
    start_stream-Mirrors stream s free =
        let name = stream_id stream in
        (
          tt,
          record s { subscriptions = add_channel_stream id name s.subscriptions },
          broker_subscribe stream ∷ hub_subscribe name id ∷ [],
          refl,
          free,
          λ h. (
            has_channel-add_channel_stream id name s.subscriptions ∙ h,
            λ channel other.
                joined-add_channel_stream id s.subscriptions channel other name ∙ rw h refl,
          ),
        )

    stop_stream-Mirrors : (stream : String) → Obeys R (stop_stream stream_id id stream)
    unfolding stop_stream after_effects
    stop_stream-Mirrors stream s free =
        let name = stream_id stream in
        (
          tt,
          record s { subscriptions = remove_channel_stream id name s.subscriptions },
          broker_unsubscribe stream ∷ hub_unsubscribe name id ∷ [],
          refl,
          free,
          λ h. (
            has_channel-remove_channel_stream id name s.subscriptions ∙ h,
            λ channel other. joined-remove_channel_stream id s.subscriptions channel other name,
          ),
        )

    -- The streams of the channel are given back to the broker one by one.
    release :
        (streams : List String) (s : Session)
        → for_each (λ stream. emit {A = A} {M = M} (broker_unsubscribe stream)) streams s
          ≡ done tt s (map broker_unsubscribe streams)
    release [] s = refl
    release (x ∷ xs) s = rw (release xs s) refl

    after_release :
        (streams : List String) (channel name : String) (on : Bool)
        → after_effects {A = A} {M = M} (map broker_unsubscribe streams) channel name on ≡ on
    unfolding after_effects
    after_release [] channel name on = refl
    after_release (x ∷ xs) channel name on = after_release xs channel name on

    pub stop_all-done :
        (s : Session)
        → let (removed, st) = remove_channel_streams id s.subscriptions in
          stop_all {A = A} {M = M} stream_id id s
          ≡ done
              (not (is_empty removed))
              (record s { subscriptions = st })
              (hub_unsubscribe_channel id ∷ (map broker_unsubscribe removed ++ []))
    unfolding stop_all
    stop_all-done s =
        let (removed, st) = remove_channel_streams id s.subscriptions in
        rw
          (
            stop_all,
            ◌>>◌,
            ◌>>=◌,
            and_then,
            behind,
            release removed (record s { subscriptions = st }),
          )
          refl

    stop_all-Mirrors : Obeys R (stop_all stream_id id)
    unfolding after_effects
    stop_all-Mirrors s free =
        let (removed, st) = remove_channel_streams id s.subscriptions in
        (
          not (is_empty removed),
          record s { subscriptions = st },
          hub_unsubscribe_channel id ∷ (map broker_unsubscribe removed ++ []),
          stop_all-done s,
          free,
          λ h. (
            has_channel-remove_channel_streams id s.subscriptions ∙ h,
            λ channel name.
                joined-remove_channel_streams id s.subscriptions channel name
                ∙ sym (
                    after_effects-append (map broker_unsubscribe removed) [] channel name _
                    ∙ after_release removed channel name _),
          ),
        )

    pub mirror-Pieces : Pieces R stream_id id
    mirror-Pieces = record {
      change = c;
      env_change = env_change;
      broadcasts = λ msg. quiet_emit (broker_broadcast msg) (λ channel stream on. refl);
      transmits = λ text. quiet_emit (transmit text) (λ channel stream on. refl);
      disconnects = closes;
      starts = start_stream-Mirrors;
    }

    pub stop_streams-Mirrors : (reply : CommandResult) → Obeys R (stop_streams stream_id id reply)
    unfolding stop_streams
    stop_streams-Mirrors reply =
        Obeys-if R c reply.stop_all_streams _ _ stop_all-Mirrors
          (streams_change R c (stop_stream stream_id id) reply.stopped_streams stop_stream-Mirrors)

    -- For a channel that the session has, with the session's lock free, a controller's result that
    -- does not stop all streams of the channel at once is taken in to the end, the lock is free
    -- again, the channel is kept, and the session's own record of its streams, in every channel,
    -- has changed exactly as the calls made of the hub change the session's subscriptions there;
    -- none of them drops a channel as a whole.
    pub handle_command_reply-Mirrors :
        (reply : CommandResult) (s : Session)
        → reply.stop_all_streams ≡ false
        → s.locked ≡ false
        → has_channel id s.subscriptions ≡ true
        → (dirty : Bool) × (t : Session) × (es : List (Effect A M)) × (handle_command_reply
              stream_id id reply s
            ≡ done dirty t es)
          × (t.locked ≡ false)
          × (has_channel id t.subscriptions ≡ true)
          × (channels_dropped es ≡ 0)
          × ((channel stream : String)
              → joined channel stream t.subscriptions
                ≡ after_effects es channel stream (joined channel stream s.subscriptions))
    handle_command_reply-Mirrors reply s some_only free known =
        let (dirty, t, es, e, free', r) =
          handle_command_reply-Obeys mirror-Pieces reply (stop_streams-Mirrors reply) s free in
        (
          dirty,
          t,
          es,
          e,
          free',
          (r known).0,
          handle_command_reply-spared A M id stream_id reply s t dirty es some_only free e,
          (r known).1,
        )
