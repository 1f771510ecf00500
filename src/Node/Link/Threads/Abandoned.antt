-- ===== src/Node/Link/Threads/Abandoned.antt =====
-- A session of node/session.go whose channel was full: it leaves the node, and what becomes of the
-- connection.
use anycable_go.Prelude.{
  All, Bool, List, ap, arith, false, length, refl, sym, true, ℕ, ◌+◌, ◌∙◌, ◌∷◌, ◌≡◌, ◌≤◌,
}
use mathlib.Core.Path.{subst}
use anycable_go.Node.Link.{
  Link, Frame, offer, close_link, disconnect_from_node, write_frame, send_frame, leave, capacity,
  is_close, text, binary, close,
}
use anycable_go.Node.Link.Threads.{
  Machine, Step, Reach, here, next, authenticates, offers, closes, leaves, enters, hangs_up,
  detaches, takes, stops, pings, sets_timers,
}

abbrev pub NoClose : List Frame → Type 0
NoClose = All (λ f. is_close f ≡ false)

-- Out of the node, the channel gone and no close frame left in it, with the connection open and
-- nobody about to close it.
pub record IsAbandoned (l : Link) (checked : ℕ) : Type 0 where
  pub unchecked : checked ≡ 0
  pub gone : l.connected ≡ false
  pub detached : l.attached ≡ false
  pub no_close : NoClose l.waiting
  pub still_open : l.hung_up ≡ false

-- Only these fields count.
kept :
    (l l' : Link) (c : ℕ)
    → l'.connected ≡ l.connected
    → l'.attached ≡ l.attached
    → l'.waiting ≡ l.waiting
    → l'.hung_up ≡ l.hung_up
    → IsAbandoned l c
    → IsAbandoned l' c
kept l l' c a b d e v = record {
  unchecked = v.unchecked;
  gone = a ∙ v.gone;
  detached = b ∙ v.detached;
  no_close = subst NoClose (sym d) v.no_close;
  still_open = e ∙ v.still_open;
}

write_frame-IsAbandoned :
    (fails : Bool) (f : Frame) (l : Link) (c : ℕ)
    → is_close f ≡ false
    → IsAbandoned l c
    → IsAbandoned (write_frame fails f l).0 c
unfolding write_frame
write_frame-IsAbandoned true (text p) l c h v = v
write_frame-IsAbandoned false (text p) l c h v = kept l _ c refl refl refl refl v
write_frame-IsAbandoned true (binary p) l c h v = v
write_frame-IsAbandoned false (binary p) l c h v = kept l _ c refl refl refl refl v
write_frame-IsAbandoned fails (close r d) l c h v = absurd (cc)

close_link-IsAbandoned : (l : Link) (c : ℕ) → IsAbandoned l c → IsAbandoned (close_link l) c
unfolding close_link
close_link-IsAbandoned l c v =
    kept l (close_link l) c (ground arith) (ground arith) (ground arith) (ground arith) v

Step-connects : {m o : Machine} → Step m o → m.connects ≤ o.connects
Step-connects (authenticates m) = omega arith
Step-connects (offers m f) = omega arith
Step-connects (closes m) = omega arith
Step-connects (leaves m) = omega arith
Step-connects (enters m h) = omega arith
Step-connects (hangs_up m r c n h) = omega arith
Step-connects (detaches m n h) = omega arith
Step-connects (takes m fails f fs on e) = omega arith
Step-connects (stops m) = omega arith
Step-connects (pings m fails p) = omega arith
Step-connects (sets_timers m a b) = omega arith

Reach-connects : {m o : Machine} → Reach m o → m.connects ≤ o.connects
Reach-connects here = omega arith
Reach-connects (next r st) = omega (arith, Reach-connects r, Step-connects st)

Step-IsAbandoned :
    {m o : Machine}
    → Step m o
    → o.connects ≡ m.connects
    → IsAbandoned m.link m.checked
    → IsAbandoned o.link o.checked
unfolding offer close_link disconnect_from_node
Step-IsAbandoned (authenticates m) e v = absurd (omega (arith, e))
Step-IsAbandoned (offers m f) same v =
    kept m.link (offer f m.link).0 m.checked (ground (arith, v.detached))
      (ground (arith, v.detached)) (ground (arith, v.detached)) (ground (arith, v.detached)) v
Step-IsAbandoned (closes m) same v = close_link-IsAbandoned m.link m.checked v
Step-IsAbandoned (leaves m) same v =
    kept m.link (disconnect_from_node m.link) m.checked (ground (arith, v.gone)) (ground arith)
      (ground arith) (ground arith) v
Step-IsAbandoned (enters m h) same v = absurd (cc (h, v.gone))
Step-IsAbandoned (hangs_up m r c n h) same v = absurd (omega (arith, h, v.unchecked))
Step-IsAbandoned (detaches m n h) same v = record {
  unchecked = v.unchecked;
  gone = v.gone;
  detached = refl;
  no_close = v.no_close;
  still_open = v.still_open;
}
Step-IsAbandoned (takes m fails f fs on e) same v =
    let rest : NoClose (f ∷ fs) = subst NoClose e v.no_close in
    write_frame-IsAbandoned fails f (record m.link { waiting = fs }) m.checked rest.0
      (record {
        unchecked = v.unchecked;
        gone = v.gone;
        detached = v.detached;
        no_close = rest.1;
        still_open = v.still_open;
      })
Step-IsAbandoned (stops m) same v = kept m.link _ m.checked refl refl refl refl v
Step-IsAbandoned (pings m fails p) same v =
    write_frame-IsAbandoned fails (text p) m.link m.checked refl v
Step-IsAbandoned (sets_timers m a b) same v = kept m.link _ m.checked refl refl refl refl v

Reach-IsAbandoned :
    {m o : Machine}
    → IsAbandoned m.link m.checked
    → Reach m o
    → o.connects ≡ m.connects
    → IsAbandoned o.link o.checked
Reach-IsAbandoned v here same = v
Reach-IsAbandoned v (next r st) same =
    Step-IsAbandoned st (omega (arith, same, Reach-connects r, Step-connects st))
      (Reach-IsAbandoned v r (omega (arith, same, Reach-connects r, Step-connects st)))

-- A connected session whose channel is full, with no close frame in it, while the connection is open
-- and nobody is about to close it.
pub record IsFull (m : Machine) : Type 0 where
  pub unchecked : m.checked ≡ 0
  pub connected : m.link.connected ≡ true
  pub attached : m.link.attached ≡ true
  pub full : length m.link.waiting ≡ capacity
  pub no_close : NoClose m.link.waiting
  pub still_open : m.link.hung_up ≡ false

module _ (f : Frame) (m : Machine) (v : IsFull m) where
  abbrev cut : Link
  cut = record m.link { attached = false }

  send_frame-full : send_frame f m.link ≡ leave cut
  unfolding send_frame offer
  send_frame-full = ground (arith, v.attached, v.full)

  leave-IsAbandoned : IsAbandoned (leave cut) m.checked
  unfolding leave close_link disconnect_from_node
  leave-IsAbandoned = record {
    unchecked = v.unchecked;
    gone = ground (arith, v.connected);
    detached = ground (arith, v.connected);
    no_close = subst NoClose (ground (arith, v.connected)) v.no_close;
    still_open = ground (arith, v.connected, v.still_open);
  }

  leave-departures : (leave cut).departures ≡ m.link.departures + 1
  unfolding leave close_link disconnect_from_node
  leave-departures = ground (arith, v.connected)

  leave-waiting : (leave cut).waiting ≡ m.link.waiting
  unfolding leave close_link disconnect_from_node
  leave-waiting = ground (arith, v.connected)

  -- One more frame is sent to a connected session whose connection and channel are open, with 256
  -- frames in the channel, none of them a close frame, and with nobody inside disconnectNow who has
  -- not closed the connection yet. The session leaves the node, its Disconnect is called, and the
  -- frame is dropped. However its goroutines go on, unless the session is authenticated again, the
  -- connection is then never closed: no close frame is ever written to it.
  pub send_frame-abandons :
      (o : Machine)
      → Reach (record m { link = send_frame f m.link }) o
      → o.connects ≡ m.connects
      → ((send_frame f m.link).connected ≡ false)
        × ((send_frame f m.link).departures ≡ m.link.departures + 1)
        × ((send_frame f m.link).waiting ≡ m.link.waiting)
        × (o.link.hung_up ≡ false)
  send_frame-abandons o r same =
      let e = send_frame-full in
      let ended : IsAbandoned (send_frame f m.link) m.checked = rw e leave-IsAbandoned in
      (
        ended.gone,
        ap (λ l. l.departures) e ∙ leave-departures,
        ap (λ l. l.waiting) e ∙ leave-waiting,
        (Reach-IsAbandoned ended r same).still_open,
      )
