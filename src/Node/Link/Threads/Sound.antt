-- ===== src/Node/Link/Threads/Sound.antt =====
-- What holds of a session's connection in node/session.go however its goroutines are interleaved.
use anycable_go.Prelude.{
  Bool, [], ap, arith, false, inl, inr, length, length-append, refl, suc, true, zero, ℕ, ◌+◌, ◌∙◌,
  ◌∷◌, ◌≡◌, ◌≤◌, ◌⊎◌,
}
use anycable_go.Node.Link.{
  Link, Frame, offer, close_link, disconnect_from_node, write_frame, capacity, text, binary, close,
}
use anycable_go.Node.Link.Threads.{
  Machine, Step, Reach, here, next, authenticates, offers, closes, leaves, enters, hangs_up,
  detaches, takes, stops, pings, sets_timers,
}

abbrev pub bit : Bool → ℕ
bit true = 1
bit false = 0

-- A new connection of a session that is still connected adds no call of Disconnect.
pub record IsSound (l : Link) (connects : ℕ) : Type 0 where
  pub bounded : l.departures + bit l.connected ≤ connects
  pub exact : (2 ≤ connects) ⊎ (l.departures + bit l.connected ≡ connects)
  pub none_missed : (connects ≡ 0) ⊎ (1 ≤ l.departures + bit l.connected)
  pub fits : length l.waiting ≤ capacity

-- Only these fields count.
same :
    (l l' : Link) (n : ℕ)
    → l'.departures + bit l'.connected ≡ l.departures + bit l.connected
    → length l'.waiting ≤ capacity
    → IsSound l n
    → IsSound l' n
same l l' n e fits v = record {
  bounded = omega (arith, e, v.bounded);
  exact = elim v.exact [ inl twice ↦ inl twice | inr once ↦ inr (e ∙ once) ];
  none_missed = elim v.none_missed [
    | inl never ↦ inl never
    | inr some_ ↦ inr (omega (arith, e, some_))
  ];
  fits = fits;
}

write_frame-IsSound :
    (fails : Bool) (f : Frame) (l : Link) (n : ℕ)
    → IsSound l n
    → IsSound (write_frame fails f l).0 n
unfolding write_frame
write_frame-IsSound fails (text p) l n v =
    same l (write_frame fails (text p) l).0 n (ground arith) (ground (arith, v.fits)) v
write_frame-IsSound fails (binary p) l n v =
    same l (write_frame fails (binary p) l).0 n (ground arith) (ground (arith, v.fits)) v
write_frame-IsSound fails (close r c) l n v =
    same l (write_frame fails (close r c) l).0 n (ground arith) (ground (arith, v.fits)) v

again_exact : (l : Link) (n : ℕ) → IsSound l n → (2 ≤ n + 1) ⊎ (l.departures + 1 ≡ n + 1)
again_exact l zero v = inr (omega (arith, v.bounded))
again_exact l (suc n) v = inl (omega arith)

again : (l : Link) (n : ℕ) → IsSound l n → IsSound (record l { connected = true }) (n + 1)
again l n v = record {
  bounded = omega (arith, v.bounded);
  exact = again_exact l n v;
  none_missed = inr (omega arith);
  fits = v.fits;
}

Step-IsSound : {m o : Machine} → Step m o → IsSound m.link m.connects → IsSound o.link o.connects
unfolding offer close_link disconnect_from_node
Step-IsSound (authenticates m) v = again m.link m.connects v
Step-IsSound (offers m f) v =
    same m.link (offer f m.link).0 m.connects (ground arith)
      (ground (arith, v.fits, length-append m.link.waiting (f ∷ []))) v
Step-IsSound (closes m) v =
    same m.link (close_link m.link) m.connects (ground arith) (ground (arith, v.fits)) v
Step-IsSound (leaves m) v =
    same m.link (disconnect_from_node m.link) m.connects (ground arith) (ground (arith, v.fits)) v
Step-IsSound (enters m h) v = v
Step-IsSound (hangs_up m r c n h) v = write_frame-IsSound false (close r c) m.link m.connects v
Step-IsSound (detaches m n h) v =
    same m.link (record m.link { attached = false }) m.connects refl v.fits v
Step-IsSound (takes m fails f fs on e) v =
    write_frame-IsSound fails f (record m.link { waiting = fs }) m.connects
      (same m.link (record m.link { waiting = fs }) m.connects refl
        (omega (arith, v.fits, ap length e)) v)
Step-IsSound (stops m) v = same m.link (record m.link { sending = false }) m.connects refl v.fits v
Step-IsSound (pings m fails p) v = write_frame-IsSound fails (text p) m.link m.connects v
Step-IsSound (sets_timers m a b) v =
    same m.link (record m.link { ping_timer = a; pong_timer = b }) m.connects refl v.fits v

pub Reach-IsSound :
    {m o : Machine} → IsSound m.link m.connects → Reach m o → IsSound o.link o.connects
Reach-IsSound v here = v
Reach-IsSound v (next r st) = Step-IsSound st (Reach-IsSound v r)
