-- ===== src/Broker/Presence/Add.antt =====
-- PresenceAdd of broker/memory.go, step by step: the two indexes after each of them.
use anycable_go.Prelude.{
  ==_iff, Bool, Bool-cases, Distinct, Option, Option-cases, String, [], append-Distinct, arith,
  contains, contains-append, false, if◌then◌else◌, inl, inr, is_empty, is_empty-append, none, not,
  refl, some, some_injective, true, ◌&&◌, ◌==◌, ◌||◌, ◌↔◌, ◌∷◌, ◌≡◌, string_eq, nat_eq,
}
use anycable_go.Prelude.Dict.{Dict, lookup, lookup-put}
use mathlib.Core.Path.{subst}
use anycable_go.Broker.Presence.View.{entry_at, joined_as, holds, IsPresence}
use anycable_go.Broker.Presence.{
  value_or, ensure, PresenceState, make_room, PresenceEntry, write_join, no_streams, add_session,
}

pub lookup-ensure {ℓ} :
    {V : Type ℓ} (k j : String) (v : V) (m : Dict String V)
    → lookup j (ensure k v m) ≡ (if k == j then some (value_or k v m) else lookup j m)
unfolding ensure value_or
lookup-ensure k j v m = ground (arith, lookup-put k j v m, ==_iff k j)

module _ {A : Type 0} (stream sid : String) (ps : PresenceState A) where
  pub entry_at-make_room : (s p : String) → entry_at s p (make_room stream sid ps) ≡ entry_at s p ps
  unfolding make_room value_or lookup
  entry_at-make_room s p = ground (arith, lookup-put stream s [] ps.streams, ==_iff stream s)

  pub joined_as-make_room :
      (t s : String) → joined_as t s (make_room stream sid ps) ≡ joined_as t s ps
  unfolding make_room value_or lookup
  joined_as-make_room t s = ground (arith, lookup-put sid t no_streams ps.sessions, ==_iff sid t)

abbrev or_fresh : {A : Type 0} → String → Option A → Option (PresenceEntry A) → PresenceEntry A
or_fresh pid info none = record { info = info; id = pid; sessions = [] }
or_fresh pid info (some entry) = entry

abbrev pub IsRecord : {A : Type 0} → String → PresenceEntry A → Type 0
IsRecord pid entry = (entry.id ≡ pid) × Distinct entry.sessions × (is_empty entry.sessions ≡ false)

added-IsRecord :
    {A : Type 0} (sid pid : String) (info : Option A) (o : Option (PresenceEntry A))
    → ((entry : PresenceEntry A) → o ≡ some entry → IsRecord pid entry)
    → IsRecord pid (add_session sid info (or_fresh pid info o))
unfolding add_session contains
added-IsRecord sid pid info none h = (refl, (refl, tt), refl)
added-IsRecord sid pid info (some entry) h =
    let (id, distinct, some_one) = h entry refl in
    elim (Bool-cases (contains sid entry.sessions)) [
      | inl old ↦ rw (old, contains) (id, distinct, some_one)
      | inr fresh ↦
          rw (fresh, contains)
            (
              id,
              append-Distinct sid entry.sessions fresh distinct,
              is_empty-append entry.sessions sid,
            )
    ]

-- A session that is on the stream under another presence ID.
abbrev pub conflict : Option String → String → Bool
conflict none pid = false
conflict (some old) pid = not (old == pid)

no_conflict : (o : Option String) (pid q : String) → conflict o pid ≡ false → o ≡ some q → q ≡ pid
no_conflict none pid q free e = cc
no_conflict (some old) pid q free e = ground (arith, ==_iff old pid)

module _ {A : Type 0} (stream sid pid : String) (info : Option A) (ps : PresenceState A) where
  abbrev old_entry : PresenceEntry A
  old_entry = or_fresh pid info (entry_at stream pid ps)

  entry_at-write_join :
      (s p : String)
      → entry_at s p (write_join stream sid pid info ps).1 ≡ (
          if stream == s && pid == p
          then some (add_session sid info old_entry)
          else entry_at s p ps)
  unfolding write_join value_or lookup
  entry_at-write_join s p = simp lookup-put (elim (Bool-cases (stream == s)) [
    | inl here ↦ simp (here, lookup-put) (ground (arith, ==_iff stream s))
    | inr there ↦ rw there
  ])

  pub joined_as-write_join :
      (t s : String)
      → joined_as t s (write_join stream sid pid info ps).1
        ≡ (if sid == t && stream == s then some pid else joined_as t s ps)
  unfolding write_join value_or lookup
  joined_as-write_join t s = simp lookup-put (elim (Bool-cases (sid == t)) [
    | inl here ↦ simp (here, lookup-put) (ground (arith, ==_iff sid t))
    | inr there ↦ rw there
  ])

  holds-added :
      (t : String)
      → holds t (some (add_session sid info old_entry))
        ≡ (sid == t || holds t (entry_at stream pid ps))
  unfolding add_session contains
  holds-added t = elim (Option-cases (entry_at stream pid ps)) [
    | inl new ↦ rw new (ground arith)
    | inr (entry, known) ↦
        rw known (ground (arith, contains-append t entry.sessions (sid ∷ []), ==_iff sid t))
  ]

  joined_alone :
      (t s : String)
      → conflict (joined_as sid stream ps) pid ≡ false
      → (sid == t && stream == s) ≡ true
      → conflict (joined_as t s ps) pid ≡ false
  joined_alone t s free mine =
      let et : sid ≡ t = ground (arith, ==_iff sid t) in
      let es : stream ≡ s = ground (arith, ==_iff stream s) in rw (← et, ← es) free

  other_record :
      (t s q : String)
      → IsPresence ps
      → conflict (joined_as sid stream ps) pid ≡ false
      → (stream == s && pid == q) ≡ false
      → (holds t (entry_at s q ps) ≡ true)
        ↔ ((if sid == t && stream == s then some pid else joined_as t s ps) ≡ some q)
  other_record t s q v free there = elim (Bool-cases (sid == t && stream == s)) [
    | inl mine ↦ rw mine (
        ground (
          arith,
          v.agree t s q,
          no_conflict (joined_as t s ps) pid q (joined_alone t s free mine),
          ==_iff pid q,
        ))
    | inr its ↦ rw its (v.agree t s q)
  ]

  -- From here on the session is not on the stream under another presence ID.
  pub write_join-IsPresence :
      IsPresence ps
      → conflict (joined_as sid stream ps) pid ≡ false
      → IsPresence (write_join stream sid pid info ps).1
  write_join-IsPresence v free = record {
    agree = λ t s q.
        rw (entry_at-write_join, joined_as-write_join)
          (elim (Bool-cases (stream == s && pid == q)) [
            | inl here ↦
                rw (here, holds-added)
                  (ground (arith, v.agree t s q, ==_iff stream s, ==_iff pid q, ==_iff sid t))
            | inr there ↦ rw there (other_record t s q v free there)
          ]);
    named = λ s q entry e. elim (Bool-cases (stream == s && pid == q)) [
      | inl here ↦
          let same : pid ≡ q = ground (arith, ==_iff pid q) in
          let found = some_injective (rw (entry_at-write_join, here) at e) in
          rw (← same) (
            subst (IsRecord pid) found
              (added-IsRecord sid pid info (entry_at stream pid ps) (v.named stream pid)))
      | inr there ↦ v.named s q entry (rw (entry_at-write_join, there) at e)
    ];
  }
