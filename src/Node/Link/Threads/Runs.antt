-- ===== src/Node/Link/Threads/Runs.antt =====
-- The functions of node/session.go that end a connection, as runs of the pieces they are made of.
use anycable_go.Prelude.{Bool-cases, String, arith, false, inl, inr, refl, sym, true, ℕ, ◌+◌, ◌≡◌}
use mathlib.Core.Path.{subst}
use anycable_go.Node.Link.{
  Link, Frame, offer, close_link, leave, disconnect_from_node, write_frame, send_frame, disconnect,
  disconnect_now, close,
}
use anycable_go.Node.Link.Threads.{
  Machine, Reach, here, next, offers, closes, leaves, enters, hangs_up, detaches,
}

pub after : {m n o : Machine} → Reach m n → Reach n o → Reach m o
after r here = r
after r (next q st) = next (after r q) st

pub Reach-leave : (m : Machine) → Reach m (record m { link = leave m.link })
unfolding leave
Reach-leave m = next (next here (closes m)) (leaves (record m { link = close_link m.link }))

pub Reach-send_frame : (f : Frame) (m : Machine) → Reach m (record m { link = send_frame f m.link })
unfolding send_frame
Reach-send_frame f m = elim (Bool-cases (offer f m.link).1) [
  | inl full ↦
      rw full
        (after (next here (offers m f)) (Reach-leave (record m { link = (offer f m.link).0 })))
  | inr room ↦ rw room (next here (offers m f))
]

pub Reach-disconnect :
    (reason : String) (code : ℕ) (m : Machine)
    → Reach m (record m { link = disconnect reason code m.link })
unfolding disconnect
Reach-disconnect reason code m =
    after (Reach-send_frame (close reason code) m)
      (Reach-leave (record m { link = send_frame (close reason code) m.link }))

-- What disconnectNow does to a session that is connected.
hung_up_link : String → ℕ → Link → Link
hung_up_link reason code l = (write_frame false (close reason code) (disconnect_from_node l)).0

disconnect_now-connected :
    (reason : String) (code : ℕ) (l : Link)
    → l.connected ≡ true
    → disconnect_now reason code l
      ≡ close_link (record (hung_up_link reason code l) { attached = false })
unfolding disconnect_now hung_up_link
disconnect_now-connected reason code l on = ground (arith, on)

disconnect_now-off :
    (reason : String) (code : ℕ) (l : Link) → l.connected ≡ false → disconnect_now reason code l ≡ l
unfolding disconnect_now
disconnect_now-off reason code l off = ground (arith, off)

pub Reach-disconnect_now :
    (reason : String) (code : ℕ) (m : Machine)
    → Reach m (record m { link = disconnect_now reason code m.link })
unfolding hung_up_link
Reach-disconnect_now reason code m = elim (Bool-cases m.link.connected) [
  | inl on ↦
      let m1 : Machine = record m { checked = m.checked + 1 } in
      let m2 : Machine = record m1 { link = disconnect_from_node m.link } in
      let m3 : Machine = record m {
        link = hung_up_link reason code m.link;
        detaching = m.detaching + 1;
      } in
      let m4 : Machine = record m {
        link = record (hung_up_link reason code m.link) { attached = false };
      } in
      subst (λ l. Reach m (record m { link = l }))
        (sym (disconnect_now-connected reason code m.link on))
        (next
          (next
            (next (next (next here (enters m on)) (leaves m1))
              (hangs_up m2 reason code m.checked refl))
            (detaches m3 m.detaching refl))
          (closes m4))
  | inr off ↦
      subst (λ l. Reach m (record m { link = l })) (sym (disconnect_now-off reason code m.link off))
        here
]
