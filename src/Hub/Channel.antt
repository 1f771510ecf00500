-- ===== src/Hub/Channel.antt =====
-- UnsubscribeSessionFromChannel of hub/hub.go, which ranges over the slice that it removes from.
use anycable_go.Prelude.{
  ==_iff, ==_refl, Bool-cases, List, Option-cases, String, [], ap, arith, false, inl, inr, length,
  none, none-ne-some, refl, some, some_injective, suc, true, zero, ℕ, ◌&&◌, ◌++◌, ◌<◌, ◌==◌, ◌∙◌,
  ◌∷◌, ◌≡◌, string_eq, nat_eq,
}
use anycable_go.Prelude.Dict.{lookup, lookup-put, put}
use anycable_go.Hub.Sharding.{hub_subscribed}
use anycable_go.Hub.Streams.{
  remove_stream, remove_in_place, unsubscribe_loop, has_stream, get_elem?, last_of,
}
use anycable_go.Hub.Registry.{
  has_stream-append, has_stream-remove_stream, is_listed, hub_subscribed-unsubscribe_all,
}
use anycable_go.Hub.{
  Hub, HubSessionInfo, Directory, Slice, StreamPair, unsubscribe_session_from_channel,
  unsubscribe_all,
}

==_sym : (s t : String) → (s == t) ≡ (t == s)
==_sym s t = ground (arith, ==_iff s t, ==_iff t s)

module _ (target s i : String) where
  -- The pair leads the list, and occurs nowhere else.
  abbrev Leads : Slice → Type 0
  Leads sl =
      (l : List StreamPair) × (sl.live ≡ (s, i) ∷ l)
      × (has_stream s i l ≡ false)
      × (has_stream s i sl.stale ≡ false)

  get_elem?-other :
      (xs : List StreamPair) (k : ℕ) (p : StreamPair)
      → has_stream s i xs ≡ false
      → get_elem? xs k ≡ some p
      → (p.0 == s && p.1 == i) ≡ false
  get_elem?-other [] k p h e = absurd (none-ne-some e)
  get_elem?-other (x ∷ xs) zero p h e = rw (← some_injective e) (ground arith)
  get_elem?-other (x ∷ xs) (suc k) p h e = get_elem?-other xs k p (ground arith) e

  last_of-other :
      (p : StreamPair) (ps : List StreamPair)
      → (p.0 == s && p.1 == i) ≡ false
      → has_stream s i ps ≡ false
      → ((last_of p ps).0 == s && (last_of p ps).1 == i) ≡ false
  last_of-other p [] h g = h
  last_of-other p (q ∷ qs) h g = last_of-other q qs (ground arith) (ground arith)

  -- The last pair of what follows, when there is some.
  last_of-follows :
      (p : StreamPair) (l : List StreamPair)
      → has_stream p.0 p.1 l ≡ true
      → has_stream s i l ≡ false
      → ((last_of (s, i) l).0 == s && (last_of (s, i) l).1 == i) ≡ false
  last_of-follows p [] found once = cc
  last_of-follows p (q ∷ qs) found once = last_of-other q qs (ground arith) (ground arith)

  remove_in_place-Leads :
      (p : StreamPair) (sl : Slice)
      → (p.0 == s && p.1 == i) ≡ false
      → Leads sl
      → Leads (remove_in_place p.0 p.1 sl)
  unfolding remove_in_place remove_stream
  remove_in_place-Leads p sl other (l, e, once, stale) =
      let flip : (s == p.0 && i == p.1) ≡ false = rw (==_sym s p.0, ==_sym i p.1) other in
      elim (Bool-cases (has_stream p.0 p.1 sl.live)) [
        | inl found ↦
            let found' : has_stream p.0 p.1 l ≡ true = ground (arith, rw e at found, flip) in
            rw found (
              remove_stream p.0 p.1 l,
              rw (e, remove_stream, flip) refl,
              has_stream-remove_stream p.0 p.1 s i l other ∙ once,
              rw (e, last_of-follows p l found' once, stale) refl,
            )
        | inr missing ↦ rw missing (l, e, once, stale)
      ]

  module _ (k rounds : ℕ) (sl : Slice) where
    loop_over :
        get_elem? (sl.live ++ sl.stale) k ≡ none
        → unsubscribe_loop target k (suc rounds) sl ≡ ([], sl)
    unfolding unsubscribe_loop
    loop_over e = rw (unsubscribe_loop, e) refl

    loop_hit :
        (p : StreamPair)
        → get_elem? (sl.live ++ sl.stale) k ≡ some p
        → (target == p.1) ≡ true
        → unsubscribe_loop target k (suc rounds) sl ≡ (
            let r = unsubscribe_loop target (suc k) rounds (remove_in_place p.0 p.1 sl) in
            (p ∷ r.0, r.1))
    unfolding unsubscribe_loop
    loop_hit p e h = rw (unsubscribe_loop, e, h) refl

    loop_miss :
        (p : StreamPair)
        → get_elem? (sl.live ++ sl.stale) k ≡ some p
        → (target == p.1) ≡ false
        → unsubscribe_loop target k (suc rounds) sl ≡ unsubscribe_loop target (suc k) rounds sl
    unfolding unsubscribe_loop
    loop_miss p e h = rw (unsubscribe_loop, e, h) refl

  unsubscribe_loop-Leads :
      (k rounds : ℕ) (sl : Slice)
      → Leads sl
      → let r = unsubscribe_loop target (suc k) rounds sl in
        (has_stream s i r.0 ≡ false) × Leads r.1
  unsubscribe_loop-Leads k zero sl v = unfold unsubscribe_loop in (refl, v)
  unsubscribe_loop-Leads k (suc rounds) sl (l, e, once, stale) =
      let follows : get_elem? (sl.live ++ sl.stale) (suc k) ≡ get_elem? (l ++ sl.stale) k =
        ap (λ xs. get_elem? (xs ++ sl.stale) (suc k)) e in
      let none_there : has_stream s i (l ++ sl.stale) ≡ false =
        rw (has_stream-append s i l sl.stale, once, stale) refl in
      elim (Option-cases (get_elem? (l ++ sl.stale) k)) [
        | inl over ↦ rw (loop_over (suc k) rounds sl (follows ∙ over)) (refl, (l, e, once, stale))
        | inr (p, at) ↦
            let other = get_elem?-other (l ++ sl.stale) k p none_there at in
            elim (Bool-cases (target == p.1)) [
              | inl hit ↦
                  let (kept, v') =
                    unsubscribe_loop-Leads (suc k) rounds (remove_in_place p.0 p.1 sl)
                      (remove_in_place-Leads p sl other (l, e, once, stale)) in
                  rw (loop_hit (suc k) rounds sl p (follows ∙ at) hit) (rw other kept, v')
              | inr miss ↦
                  rw (loop_miss (suc k) rounds sl p (follows ∙ at) miss)
                    (unsubscribe_loop-Leads (suc k) rounds sl (l, e, once, stale))
            ]
      ]

module _ (dir : Directory) (session : ℕ) (h : Hub) (some_gate : 0 < length h.gates)
    (info : HubSessionInfo) (at : lookup (dir.id session) h.sessions ≡ some info)
    (target : String) where
  abbrev outcome : List StreamPair × Slice
  outcome =
      unsubscribe_loop target 0 (length info.streams) (record { live = info.streams; stale = [] })

  from_channel : unsubscribe_session_from_channel dir session target h ≡ record h {
    gates = unsubscribe_all session outcome.0 h.gates;
    sessions = put (dir.id session) (record info { streams = outcome.1.live }) h.sessions;
  }
  unfolding unsubscribe_session_from_channel
  from_channel = rw (unsubscribe_session_from_channel, at) refl

  module _ (other s i : String) (p : StreamPair) (rest : List StreamPair)
      (e : info.streams ≡ (other, target) ∷ (s, i) ∷ p ∷ rest)
      (apart : (other == s && target == i) ≡ false) (once : has_stream s i (p ∷ rest) ≡ false) where
    -- After the first round the pair leads the list.
    first_round :
        Leads target s i (remove_in_place other target (record { live = info.streams; stale = [] }))
    unfolding remove_in_place remove_stream
    first_round =
        rw (e, ==_refl other, ==_refl target)
          (
            p ∷ rest,
            refl,
            once,
            rw (last_of-other target s i p rest (ground arith) (ground arith)) refl,
          )

    outcome-skips : (has_stream s i outcome.0 ≡ false) × Leads target s i outcome.1
    outcome-skips =
        let (kept, v) =
          unsubscribe_loop-Leads target s i 0 (suc (suc (length rest)))
            (remove_in_place other target (record { live = info.streams; stale = [] }))
            first_round in
        let all : outcome
            ≡ unsubscribe_loop target 0 (suc (suc (suc (length rest))))
                (record { live = info.streams; stale = [] }) =
          ap
            (λ ps.
              unsubscribe_loop target 0 (length ps) (record { live = info.streams; stale = [] }))
            e in
        let hit =
          loop_hit target s i 0 (suc (suc (length rest)))
            (record { live = info.streams; stale = [] }) (other, target) (rw e refl)
            (==_refl target) in
        rw (all ∙ hit) (rw apart kept, v)

    -- A session whose stream list has a pair `(other, target)` at its head, a pair `(s, i)` right
    -- behind it and nowhere else, and more behind that: leaving the channel `target` leaves the
    -- session subscribed to `s` under `i` as it was, also where `i` is `target`.
    pub unsubscribe_session_from_channel_skips :
        let h' = unsubscribe_session_from_channel dir session target h in
        (hub_subscribed s session i h'.gates ≡ hub_subscribed s session i h.gates)
        × (is_listed (lookup (dir.id session) h'.sessions) s i ≡ true)
    unsubscribe_session_from_channel_skips =
        let (kept, (l, e', once', stale')) = outcome-skips in
        rw from_channel (
          rw (hub_subscribed-unsubscribe_all session outcome.0 h.gates s session i some_gate, kept)
              (ground arith),
          rw (lookup-put, ==_refl (dir.id session), e', ==_refl s, ==_refl i) refl,
        )
