-- ===== src/Node/Commands/Release.antt =====
-- What an unsubscription of node/node.go leaves with the broker.
use anycable_go.Prelude.{
  Bool, Bool-cases, List, String, [], ap, arith, false, if◌then◌else◌, inl, inr, is_empty, map, not,
  ok, refl, some, sym, true, ℕ, ◌++◌, ◌+◌, ◌==◌, ◌∙◌, ◌∷◌, ◌≡◌, string_eq, nat_eq,
}
use anycable_go.Node.Replies.Mirror.{stop_all-done}
use anycable_go.Node.Replies.Pieces.{
  Pieces, start_stream-done, stop_streams-stop_all, handle_command_reply-Obeys,
}
use anycable_go.Common.Commands.{CommandResult, Message}
use anycable_go.Node.Subscriptions.{
  has_channel, add_channel_stream, remove_channel_streams, has_channel-remove_channel_streams,
  has_channel-add_channel_stream, remove_channel_streams-missing, has_channel-remove_channel,
}
use anycable_go.Node.Steps.{
  ◌>>◌, Session, Effect, done, lock, modify, unlock, give, emit, broker_unsubscribe, transmit,
  disconnect, close_connection, broker_subscribe, hub_unsubscribe_channel, hub_subscribe,
}
use anycable_go.Node.Obeys.{Change, IsChange, Obeys, Obeys-bind, Obeys-give, Obeys-when}
use anycable_go.Node.Replies.{start_stream, stop_all, stop_streams}
use mathlib.Core.Path.{subst}
use anycable_go.Common.Env.{SessionEnv, remove_channel_state, get_channel_state_field}
use anycable_go.Node.Commands.{
  World, unsubscribe, SessionEnv, broker_broadcast, commit, finish_unsubscribe, Answer,
  commit_session, drop_channel, when, remove_channel, presence_stream_state, presence_remove,
}

-- The effect gives a stream back to the broker.
abbrev pub is_release : {A M : Type 0} → Effect A M → Bool
is_release (broker_unsubscribe stream) = true
is_release _ = false

-- How many streams are given back.
unfoldable pub releases : {A M : Type 0} → List (Effect A M) → ℕ
releases [] = 0
releases (e ∷ es) = (if is_release e then 1 else 0) + releases es

releases-append :
    {A M : Type 0} (es fs : List (Effect A M)) → releases (es ++ fs) ≡ releases es + releases fs
unfolding releases
releases-append [] fs = omega arith
releases-append (e ∷ es) fs = omega (arith, releases-append es fs)

-- Without the channel in the session's state, and without a list of streams to stop, nothing is
-- given back.
abbrev Keeps : {A M : Type 0} → String → Session → List (Effect A M) → Session → Type 0
Keeps id s es t =
    has_channel id s.subscriptions ≡ false
    → (has_channel id t.subscriptions ≡ false) × (releases es ≡ 0)

Keeps-IsChange : {A M : Type 0} (id : String) → IsChange {A = A} {M = M} (Keeps id)
unfolding releases
Keeps-IsChange id = record {
  same = λ s h. (h, refl);
  trans = λ s t u es fs f g h.
      let (h', first) = f h in
      let (h'', second) = g h' in (h'', omega (arith, releases-append es fs, first, second));
}

module _ (A M : Type 0) (id : String) where
  abbrev R : Change A M
  R = Keeps id

  kept_emit : (e : Effect A M) → is_release e ≡ false → Obeys R (emit e)
  unfolding releases
  kept_emit e q s free = (tt, s, e ∷ [], refl, free, λ h. (h, rw q refl))

  kept_close : (reason : String) → Obeys R (close_connection reason)
  unfolding releases
  kept_close reason s free =
      (tt, record s { connected = false }, disconnect reason ∷ [], refl, free, λ h. (h, refl))

  kept_env :
      (f : SessionEnv → SessionEnv)
      → Obeys R (lock >> (modify (λ s. record s { env = f s.env }) >> (unlock >> give true)))
  unfolding releases
  kept_env f s free =
      (true, record s { env = f s.env; locked = false }, [], rw free refl, refl, λ h. (h, refl))

  module _ (stream_id : String → String) where
    start_stream-Keeps : (stream : String) → Obeys R (start_stream stream_id id stream)
    unfolding releases
    start_stream-Keeps stream s free =
        let name = stream_id stream in
        (
          tt,
          record s { subscriptions = add_channel_stream id name s.subscriptions },
          broker_subscribe stream ∷ hub_subscribe name id ∷ [],
          start_stream-done A M stream_id id stream s,
          free,
          λ h. (has_channel-add_channel_stream id name s.subscriptions ∙ h, refl),
        )

    stop_all-Keeps : Obeys R (stop_all stream_id id)
    unfolding releases
    stop_all-Keeps s free =
        let (removed, st) = remove_channel_streams id s.subscriptions in
        (
          not (is_empty removed),
          record s { subscriptions = st },
          hub_unsubscribe_channel id ∷ (map broker_unsubscribe removed ++ []),
          stop_all-done A M id stream_id s,
          free,
          λ h. (
            has_channel-remove_channel_streams id s.subscriptions ∙ h,
            ap
                (λ r.
                  releases {A = A} {M = M}
                    (hub_unsubscribe_channel id ∷ (map broker_unsubscribe r.0 ++ [])))
                (remove_channel_streams-missing id s.subscriptions h),
          ),
        )

  pieces : (stream_id : String → String) → Pieces R stream_id id
  pieces stream_id = record {
    change = Keeps-IsChange id;
    env_change = kept_env;
    broadcasts = λ msg. kept_emit (broker_broadcast msg) refl;
    transmits = λ text. kept_emit (transmit text) refl;
    disconnects = kept_close;
    starts = start_stream-Keeps stream_id;
  }

module _ {A M : Type 0} (w : World A M) (id stream : String) (r : CommandResult) where
  abbrev final : CommandResult
  final = record r { stop_all_streams = true }

  commit-Keeps : Obeys (Keeps {A = A} {M = M} id) (commit w)
  unfolding commit releases
  commit-Keeps s free = elim (Bool-cases s.resumable) [
    | inl cached ↦
        (tt, s, commit_session ∷ [], rw (commit, when, cached) refl, free, λ h. (h, refl))
    | inr plain ↦ (tt, s, [], rw (commit, when, plain) refl, free, λ h. (h, refl))
  ]

  finish_unsubscribe-Keeps :
      Obeys (Keeps {A = A} {M = M} id) (finish_unsubscribe w id stream (some final))
  unfolding finish_unsubscribe
  finish_unsubscribe-Keeps =
      let c = Keeps-IsChange {A = A} {M = M} id in
      let stops : Obeys (Keeps {A = A} {M = M} id) (stop_streams w.stream_id id final) =
        subst (Obeys (Keeps {A = A} {M = M} id))
          (sym (stop_streams-stop_all A M w.stream_id id final refl))
          (stop_all-Keeps A M id w.stream_id) in
      Obeys-bind (Keeps id) c _ _
        (Obeys-bind (Keeps id) c _ (λ u. give tt)
          (handle_command_reply-Obeys (pieces A M id w.stream_id) final stops)
          (λ u. Obeys-give (Keeps id) c tt))
        (λ u. Obeys-bind (Keeps id) c _ _ commit-Keeps (λ u.
          Obeys-bind (Keeps id) c _ (λ u. give (ok (some final)))
            (Obeys-when (Keeps id) c (not (stream == "")) _
              (kept_emit A M id (presence_remove stream) refl))
            (λ u. Obeys-give (Keeps id) c (ok (some final)))))

-- On a session whose lock is free, for a channel that it has: an unsubscription that the controller
-- does not fail ends with the lock free and the channel gone from the session, and gives no
-- stream back to the broker, however many the channel had.
pub unsubscribe_keeps_streams :
    {A M : Type 0} (w : World A M) (msg : Message A) (s : Session) (r : CommandResult)
    → s.locked ≡ false
    → has_channel msg.identifier s.subscriptions ≡ true
    → w.controller_unsubscribe s.uid s.env s.env.identifiers msg.identifier ≡ (some r, false)
    → (answer : Answer) × (t : Session) × (es : List (Effect A M)) × (unsubscribe w msg s
        ≡ done answer t es)
      × (t.locked ≡ false)
      × (has_channel msg.identifier t.subscriptions ≡ false)
      × (releases es ≡ 0)
unfolding unsubscribe drop_channel
unsubscribe_keeps_streams w msg s r free known answer =
    let id = msg.identifier in
    let dropped : Session = record s {
      env = remove_channel_state id s.env;
      subscriptions = remove_channel id s.subscriptions;
      locked = false;
    } in
    let stream = get_channel_state_field id presence_stream_state s.env in
    let (x, t, es, e, free', kept) = finish_unsubscribe-Keeps w id stream r dropped refl in
    let (gone, none_given) = kept (has_channel-remove_channel id s.subscriptions) in
    (x, t, es, rw (unsubscribe, free, known, answer, drop_channel, e) refl, free', gone, none_given)
