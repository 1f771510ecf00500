-- ===== src/Node/Commands/Confirm.antt =====
-- A confirmed subscription of node/node.go, with the history and the presence that it may ask for.
use anycable_go.Prelude.{
  Bool, List, Option, String, [], ap, false, if◌then◌else◌, ltb, none, not, ok, refl, some, true,
  ◌&&◌, ◌++◌, ◌==◌, ◌||◌, ◌∙◌, ◌≡◌, string_eq, nat_eq,
}
use anycable_go.Common.Commands.{CommandResult, Message, success}
use anycable_go.Node.Subscriptions.{
  has_channel, joined, joined-add_channel, has_channel-add_channel,
}
use anycable_go.Node.Steps.{Session, Effect, done, get, give, emit, ◌>>◌}
use anycable_go.Node.Obeys.{
  Change, IsChange, Obeys, Obeys-bind, Obeys-give, Obeys-if, Obeys-when, Obeys-option,
  Obeys-for_each,
}
use anycable_go.Node.Replies.Pieces.{handle_command_reply-Obeys}
use anycable_go.Node.Replies.Mirror.{
  Mirrors, Mirrors-IsChange, quiet_emit, calm, mark_disconnectable-Mirrors, mirror-Pieces,
  stop_streams-Mirrors, after_effects, calm, after_effect,
}
use anycable_go.Node.Commands.{
  World, subscribe, finish_subscribe, take_reply, after_subscribe, history, check_channel,
  handle_presence_reply, announce, commit, commit_session, PresenceEvent, get_channel_state_field,
  unknown_subscription, presence_failed, presence_stream_state, is_missing, no_presence_stream,
  history_missing, presence_missing, retrieve_history, presence_add, streams_for, presence_remove,
  history_failed, send, plain, to_reply_for, admit, add_channel,
}

module _ {A M : Type 0} (w : World A M) (id : String) where
  abbrev R : Change A M
  R = Mirrors id

  c : IsChange R
  c = Mirrors-IsChange id

  get-Mirrors : Obeys R get
  get-Mirrors s free = (s, s, [], refl, free, c.same s)

  commit-Mirrors : Obeys R (commit w)
  unfolding commit
  commit-Mirrors = Obeys-bind R c get _ get-Mirrors (λ s.
      Obeys-when R c s.resumable _ (quiet_emit A M id commit_session (λ channel stream on. refl)))

  check_channel-Mirrors : (channel : String) → Obeys R (check_channel w channel)
  unfolding check_channel
  check_channel-Mirrors channel s free = (
    has_channel channel s.subscriptions,
    record s { locked = false },
    [],
    rw free refl,
    refl,
    calm A M id s (record s { locked = false }) refl,
  )

  announce-Mirrors :
      (stream : String) (msg : Option (PresenceEvent A)) → Obeys R (announce w stream msg)
  unfolding announce
  announce-Mirrors stream none = Obeys-give R c tt
  announce-Mirrors stream (some event) = quiet_emit A M id _ (λ channel name on. refl)

  -- The common end of a join and a leave.
  told :
      (stream : String) (r : Option (PresenceEvent A) × Bool) (e : Effect A M)
      → ((channel name : String) (on : Bool) → after_effect e channel name on ≡ on)
      → Obeys R
          (emit e >> (announce w stream r.0 >> give (if r.1 then some presence_failed else none)))
  told stream r e q = Obeys-bind R c _ _ (quiet_emit A M id e q) (λ u.
      Obeys-bind R c _ (λ u. give (if r.1 then some presence_failed else none))
        (announce-Mirrors stream r.0) (λ u. Obeys-give R c _))

  handle_presence_reply-Mirrors :
      (joins : Bool) (presence : Option (PresenceEvent A))
      → Obeys R (handle_presence_reply w id joins presence)
  unfolding handle_presence_reply
  handle_presence_reply-Mirrors joins presence = Obeys-bind R c get _ get-Mirrors (λ s.
      let stream = get_channel_state_field id presence_stream_state s.env in
      Obeys-if R c (stream == "") _ _ (Obeys-give R c (some no_presence_stream)) (
        Obeys-if R c joins _ _
          (Obeys-option R c presence _ _ (Obeys-give R c (some presence_missing)) (λ event.
            told stream (w.presence_add stream s.uid event.id event.info)
              (presence_add stream event.id event.info) (λ channel name on. refl)))
          (told stream (w.presence_remove stream s.uid) (presence_remove stream)
            (λ channel name on. refl))))

  history-Mirrors : (msg : Message A) → Obeys R (history w msg)
  unfolding history
  history-Mirrors msg = Obeys-bind R c _ _ (check_channel-Mirrors msg.identifier) (λ known.
      Obeys-bind R c get _ get-Mirrors (λ s.
        Obeys-if R c (not known) _ _ (Obeys-give R c (some unknown_subscription)) (
          Obeys-if R c (msg.history.since == 0 && is_missing msg.history.streams) _ _
            (Obeys-give R c (some history_missing))
            (Obeys-option R c
              (retrieve_history w msg.history (streams_for msg.identifier s.subscriptions)) _ _
              (Obeys-bind R c _ (λ u. give (some history_failed))
                (quiet_emit A M id (send (plain w "reject_history" msg.identifier))
                  (λ channel stream on. refl))
                (λ u. Obeys-give R c (some history_failed)))
              (λ backlog.
                Obeys-bind R c _ _
                  (Obeys-for_each R c (λ el. emit (send (to_reply_for w.json msg.identifier el)))
                    backlog (λ el. quiet_emit A M id _ (λ channel stream on. refl)))
                  (λ u.
                    Obeys-bind R c _ (λ u. give none)
                      (quiet_emit A M id (send (plain w "confirm_history" msg.identifier))
                        (λ channel stream on. refl))
                      (λ u. Obeys-give R c none)))))))

module _ {A M : Type 0} (w : World A M) (msg : Message A) where
  abbrev S : Change A M
  S = Mirrors msg.identifier

  d : IsChange S
  d = Mirrors-IsChange msg.identifier

  after_subscribe-Mirrors : Obeys S (after_subscribe w msg)
  unfolding after_subscribe
  after_subscribe-Mirrors = Obeys-bind S d (commit w) _ (commit-Mirrors w msg.identifier) (λ u.
      Obeys-bind S d _ _
        (Obeys-when S d (ltb 0 msg.history.since || not (is_missing msg.history.streams)) _ (
          Obeys-bind S d (history w msg) (λ e. give tt) (history-Mirrors w msg.identifier msg)
            (λ e. Obeys-give S d tt)))
        (λ u. Obeys-when S d (not (is_missing msg.presence)) _ (
          Obeys-bind S d (handle_presence_reply w msg.identifier true msg.presence) (λ e. give tt)
            (handle_presence_reply-Mirrors w msg.identifier true msg.presence)
            (λ e. Obeys-give S d tt))))

  take_reply-Mirrors : (r : CommandResult) → Obeys S (take_reply w msg.identifier (some r))
  unfolding take_reply
  take_reply-Mirrors r =
      let id = msg.identifier in
      Obeys-bind S d _ _
        (handle_command_reply-Obeys (mirror-Pieces A M id w.stream_id) r
          (stop_streams-Mirrors A M id w.stream_id r))
        (λ dirty. mark_disconnectable-Mirrors A M id w.disconnect_mode r.disconnect_interest)

  finish_subscribe-done :
      (r : CommandResult) (s : Session)
      → s.locked ≡ false
      → (t : Session) × (es : List (Effect A M)) × (finish_subscribe w msg true (some r) s
          ≡ done (ok (some r)) t es)
        × (t.locked ≡ false)
        × S s es t
  unfolding finish_subscribe
  finish_subscribe-done r s free =
      let (u, t, es, e, free', m) = take_reply-Mirrors r s free in
      let (v, t', fs, e', free'', m') = after_subscribe-Mirrors t free' in
      (
        t',
        es ++ (fs ++ []),
        rw (finish_subscribe, e, e') refl,
        free'',
        d.trans s t t' es (fs ++ []) m (d.trans t t' t' fs [] m' (d.same t')),
      )

-- On a session whose lock is free, for a channel that it does not have: a subscription that the
-- controller confirms runs to its end, with all that the message asks for besides, and gives back
-- the controller's result. The lock is free again, the session has the channel, and its own record
-- of its streams has changed exactly as the calls made of the hub change its subscriptions there.
pub subscribe_confirms :
    {A M : Type 0} (w : World A M) (msg : Message A) (s : Session) (r : CommandResult)
    → s.locked ≡ false
    → has_channel msg.identifier s.subscriptions ≡ false
    → w.controller_subscribe s.uid s.env s.env.identifiers msg.identifier ≡ (some r, false)
    → (r.status == success) ≡ true
    → (t : Session) × (es : List (Effect A M)) × (subscribe w msg s ≡ done (ok (some r)) t es)
      × (t.locked ≡ false)
      × (has_channel msg.identifier t.subscriptions ≡ true)
      × ((channel stream : String)
          → joined channel stream t.subscriptions
            ≡ after_effects es channel stream (joined channel stream s.subscriptions))
unfolding subscribe admit
subscribe_confirms w msg s r free new answer confirmed =
    let id = msg.identifier in
    let added : Session = record s {
      subscriptions = add_channel id s.subscriptions;
      locked = false;
    } in
    let (t, es, e, free', m) = finish_subscribe-done w msg r added refl in
    let (known, same) = m (has_channel-add_channel id s.subscriptions) in
    (
      t,
      es,
      rw (subscribe, free, new, answer, confirmed, e) refl,
      free',
      known,
      λ channel stream.
          same channel stream
          ∙ ap (after_effects es channel stream)
              (joined-add_channel id s.subscriptions channel stream new),
    )
