-- ===== src/Node/Lifecycle/Admission.antt =====
-- A connection that the controller answers, in Authenticate of node/node.go: who gets into the hub.
use anycable_go.Prelude.{
  Bool, Bool-cases, List, String, [], arith, false, if◌then◌else◌, inl, inr, not, refl, some, true,
  ℕ, ◌&&◌, ◌++◌, ◌+◌, ◌==◌, ◌||◌, ◌∙◌, ◌∷◌, ◌≡◌, string_eq, nat_eq,
}
use mathlib.Core.List.{append-nil}
use anycable_go.Common.Env.{merge_connection_state}
use anycable_go.Common.Commands.{ConnectResult, CallResult, connect_call_result, success, ℤ}
use anycable_go.Node.Commands.{World, commit}
use anycable_go.Node.Replies.{handle_call_reply, mark_disconnectable, interested}
use anycable_go.Node.Lifecycle.{
  Greeting, authenticated, greet, authenticate, try_restore_session, settle, ◌>>=◌,
}
use anycable_go.Node.Obeys.{
  Change, IsChange, Obeys, Obeys-bind, Obeys-give, Obeys-when, Obeys-option, Obeys-for_each,
}
use anycable_go.Node.Steps.{
  Session, Effect, hub_add_session, disconnect, give, emit, done, and_then, broker_broadcast,
  commit_session, transmit,
}

abbrev is_add : {A M : Type 0} → Effect A M → Bool
is_add hub_add_session = true
is_add _ = false

abbrev is_drop : {A M : Type 0} → Effect A M → Bool
is_drop (disconnect reason) = true
is_drop _ = false

-- How many of the effects put the session into the hub, and how many close it.
unfoldable pub adds : {A M : Type 0} → List (Effect A M) → ℕ
adds [] = 0
adds (e ∷ es) = (if is_add e then 1 else 0) + adds es

unfoldable pub drops : {A M : Type 0} → List (Effect A M) → ℕ
drops [] = 0
drops (e ∷ es) = (if is_drop e then 1 else 0) + drops es

pub adds-append : {A M : Type 0} (es fs : List (Effect A M)) → adds (es ++ fs) ≡ adds es + adds fs
unfolding adds
adds-append [] fs = omega arith
adds-append (e ∷ es) fs = omega (arith, adds-append es fs)

pub drops-append :
    {A M : Type 0} (es fs : List (Effect A M)) → drops (es ++ fs) ≡ drops es + drops fs
unfolding drops
drops-append [] fs = omega arith
drops-append (e ∷ es) fs = omega (arith, drops-append es fs)

-- The session is as connected and as identified as before, and the hub does not hear of it.
abbrev Steady : {A M : Type 0} → Session → List (Effect A M) → Session → Type 0
Steady s es t =
    (t.connected ≡ s.connected)
    × (t.env.identifiers ≡ s.env.identifiers)
    × (adds es ≡ 0)
    × (drops es ≡ 0)

module _ (A M : Type 0) where
  abbrev R : Change A M
  R = Steady

  c : IsChange R
  unfolding adds drops
  c = record {
    same = λ s. (refl, refl, refl, refl);
    trans = λ s t u es fs f g. (
      g.0 ∙ f.0,
      g.1 ∙ f.1,
      omega (arith, adds-append es fs, f.2, g.2),
      omega (arith, drops-append es fs, f.3, g.3),
    );
  }

  steady_emit : (e : Effect A M) → is_add e ≡ false → is_drop e ≡ false → Obeys R (emit e)
  unfolding adds drops
  steady_emit e a d s free = (tt, s, e ∷ [], refl, free, (refl, refl, rw a refl, rw d refl))

  handle_call_reply-Steady :
      (stream_id : String → String) (reply : CallResult)
      → Obeys R (handle_call_reply stream_id reply)
  unfolding handle_call_reply adds drops merge_connection_state
  handle_call_reply-Steady stream_id reply =
      Obeys-bind R c _ _
        (Obeys-option R c reply.cstate _ _ (Obeys-give R c false) (λ cstate s free. (
          true,
          record s { env = merge_connection_state cstate s.env; locked = false },
          [],
          rw free refl,
          refl,
          (refl, refl, refl, refl),
        )))
        (λ dirty.
          Obeys-bind R c _ _
            (Obeys-for_each R c _ reply.broadcasts
              (λ msg. steady_emit (broker_broadcast msg) refl refl))
            (λ u.
              Obeys-bind R c _ (λ u. give dirty)
                (Obeys-for_each R c _ reply.transmissions
                  (λ text. steady_emit (transmit text) refl refl))
                (λ u. Obeys-give R c dirty)))

  mark_disconnectable-Steady :
      (mode : String) (interest : ℤ) → Obeys R (mark_disconnectable mode interest)
  unfolding mark_disconnectable adds drops
  mark_disconnectable-Steady mode interest =
      Obeys-option R c (interested mode interest) _ _ (Obeys-give R c tt) (λ val s free. (
        tt,
        record s { disconnect_interest = s.disconnect_interest || val },
        [],
        refl,
        free,
        (refl, refl, refl, refl),
      ))

  commit-Steady : (w : World A M) → Obeys R (commit w)
  unfolding commit adds drops
  commit-Steady w =
      Obeys-bind R c _ _ (λ s free. (s, s, [], refl, free, c.same s))
        (λ s. Obeys-when R c s.resumable _ (steady_emit commit_session refl refl))

module _ {A M : Type 0} (g : Greeting A M) where
  settle-Steady : (res : ConnectResult) → Obeys (R A M) (settle g res)
  unfolding settle
  settle-Steady res =
      Obeys-bind (R A M) (c A M) _ _
        (handle_call_reply-Steady A M g.world.stream_id (connect_call_result res))
        (λ dirty.
          Obeys-bind (R A M) (c A M) _ _
            (mark_disconnectable-Steady A M g.world.disconnect_mode res.disconnect_interest)
            (λ u. commit-Steady A M g.world))

  -- Where a session stands once it has been greeted with a result.
  abbrev pub IsGreeted : Bool → ConnectResult → Session → List (Effect A M) → Session → Type 0
  IsGreeted disconnects res s es t =
      let admitted = res.status == success in
      (t.locked ≡ false)
      × (t.connected ≡ (if admitted then true else if disconnects then false else s.connected))
      × (t.env.identifiers ≡ (if admitted then res.identifier else s.env.identifiers))
      × (adds es ≡ (if admitted then 1 else 0))
      × (drops es ≡ (if not admitted && disconnects then 1 else 0))

  greet-IsGreeted :
      (disconnects : Bool) (res : ConnectResult) (s : Session)
      → s.locked ≡ false
      → (t : Session) × (es : List (Effect A M)) × (greet g disconnects res s ≡ done tt t es)
        × IsGreeted disconnects res s es t
  unfolding greet authenticated adds drops
  greet-IsGreeted disconnects res s free = elim (Bool-cases (res.status == success)) [
    | inl good ↦
        let s' : Session = record s {
          env = record s.env { identifiers = res.identifier };
          connected = true;
        } in
        let (u, t, es, e, free', r) = settle-Steady res s' free in
        (
          t,
          hub_add_session ∷ es,
          rw (greet, good, e, append-nil) refl,
          (
            free',
            rw good (r.0),
            rw good (r.1),
            rw good (omega (arith, r.2)),
            rw good (omega (arith, r.3)),
          ),
        )
    | inr bad ↦
        let (u, t, es, e, free', r) = settle-Steady res s free in
        elim (Bool-cases disconnects) [
          | inl closes ↦ (
            record t { connected = false },
            es ++ disconnect "Auth Failed" ∷ [],
            rw (greet, bad, closes, e) refl,
            (
              free',
              rw (bad, closes) refl,
              rw bad (r.1),
              rw bad (omega (arith, r.2, adds-append es (disconnect "Auth Failed" ∷ []))),
              rw (bad, closes)
                  (omega (arith, r.3, drops-append es (disconnect "Auth Failed" ∷ []))),
            ),
          )
          | inr keep ↦ (
            t,
            es,
            rw (greet, bad, keep, e, append-nil) refl,
            (free', rw (bad, keep) (r.0), rw bad (r.1), rw bad (r.2), rw (bad, keep) (r.3)),
          )
        ]
  ]

  not_restored :
      (s : Session)
      → (s.resumable && not (s.prev_sid == "")) ≡ false
      → (if s.resumable then try_restore_session g else give false) s ≡ done false s []
  unfolding try_restore_session
  not_restored s new = elim (Bool-cases s.resumable) [
    | inl can ↦
        let nothing : (s.prev_sid == "") ≡ true = ground (arith, can, new) in
        rw (can, try_restore_session, nothing) refl
    | inr cannot ↦ rw cannot refl
  ]

  -- A connection with its lock free that is not to be restored, and that the controller answers
  -- with a result, is greeted to the end. If the result is a success, the session is connected with
  -- the result's identifiers, enters the hub once and is not closed. If not, it never enters the
  -- hub and it stays as identified as it was; where a failure is to close it, it is closed once and
  -- is not connected any more, and otherwise it is not closed and as connected as it was.
  pub authenticate_admits :
      (disconnects : Bool) (res : ConnectResult) (s : Session)
      → s.locked ≡ false
      → (s.resumable && not (s.prev_sid == "")) ≡ false
      → g.controller_authenticate s.uid s.env ≡ (some res, false)
      → (t : Session) × (es : List (Effect A M)) × (authenticate g disconnects s
          ≡ done (some res) t es)
        × IsGreeted disconnects res s es t
  unfolding authenticate try_restore_session
  authenticate_admits disconnects res s free new answer =
      let (t, es, e, r) = greet-IsGreeted disconnects res s free in
      (t, es, rw (authenticate, ◌>>=◌, and_then, not_restored s new, answer, e, append-nil) refl, r)
