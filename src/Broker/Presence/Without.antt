-- ===== src/Broker/Presence/Without.antt =====
-- A session that leaves a stream of broker/memory.go, by whatever way the two indexes come to say so.
use anycable_go.Prelude.{
  ==_iff, Bool-cases, String, arith, false, if◌then◌else◌, inl, inr, none, some, true, ◌&&◌, ◌==◌,
  ◌↔◌, ◌≡◌, string_eq, nat_eq,
}
use anycable_go.Broker.Presence.Remove.{left, left-IsRecord, holds-left}
use anycable_go.Broker.Presence.View.{entry_at, joined_as, IsPresence, holds}
use anycable_go.Broker.Presence.{PresenceEntry, PresenceState}

-- `qs` shows what `ps` does, without the session on the stream.
module _ {A : Type 0} (stream sid pid : String) (ps : PresenceState A) (entry : PresenceEntry A)
    (qs : PresenceState A) (here : entry_at stream pid ps ≡ some entry)
    (joined : joined_as sid stream ps ≡ some pid)
    (shown : (s p : String)
      → entry_at s p qs ≡ (if stream == s && pid == p then left sid entry else entry_at s p ps))
    (listed : (t s : String)
      → joined_as t s qs ≡ (if sid == t && stream == s then none else joined_as t s ps)) where
  in_record :
      IsPresence ps
      → (t s q : String) → (stream == s && pid == q) ≡ true
      → (holds t (left sid entry) ≡ true)
        ↔ ((if sid == t && stream == s then none else joined_as t s ps) ≡ some q)
  in_record v t s q same =
      let es : stream ≡ s = ground (arith, ==_iff stream s) in
      let ep : pid ≡ q = ground (arith, ==_iff pid q) in
      let found : entry_at s q ps ≡ some entry = rw (← es, ← ep) here in
      let facts = v.agree t s q in
      let known = rw found at facts in
      rw (holds-left sid entry (v.named stream pid entry here).1 t)
        (ground (arith, known, ==_iff stream s, ==_iff sid t))

  in_others :
      IsPresence ps
      → (t s q : String) → (stream == s && pid == q) ≡ false
      → (holds t (entry_at s q ps) ≡ true)
        ↔ ((if sid == t && stream == s then none else joined_as t s ps) ≡ some q)
  in_others v t s q other = elim (Bool-cases (sid == t && stream == s)) [
    | inl its ↦
        let et : sid ≡ t = ground (arith, ==_iff sid t) in
        let es : stream ≡ s = ground (arith, ==_iff stream s) in
        let under : joined_as t s ps ≡ some pid = rw (← et, ← es) joined in
        rw its (ground (arith, v.agree t s q, under, ==_iff pid q))
    | inr not_its ↦ rw not_its (v.agree t s q)
  ]

  agree-without :
      IsPresence ps
      → (t s q : String) → (holds t (entry_at s q qs) ≡ true) ↔ (joined_as t s qs ≡ some q)
  agree-without v t s q =
      rw (shown s q, listed t s)
        (elim (Bool-cases (stream == s && pid == q)) [
          | inl same ↦ rw same (in_record v t s q same)
          | inr other ↦ rw other (in_others v t s q other)
        ])

  pub without-IsPresence : IsPresence ps → IsPresence qs
  without-IsPresence v = record {
    agree = agree-without v;
    named = λ s q e found. elim (Bool-cases (stream == s && pid == q)) [
      | inl same ↦
          let same_pid : pid ≡ q = ground (arith, ==_iff pid q) in
          rw (← same_pid) (
            left-IsRecord sid entry pid e (v.named stream pid entry here)
              (rw (shown s q, same) at found))
      | inr other ↦ v.named s q e (rw (shown s q, other) at found)
    ];
  }
