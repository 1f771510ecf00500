-- ===== src/Broker/Presence/Remove.antt =====
-- PresenceRemove of broker/memory.go, step by step: the two indexes after each of them.
use anycable_go.Prelude.{
  ==_iff, Bool-cases, Distinct, Option, String, arith, contains, contains-is_empty,
  contains-remove_first, false, if◌then◌else◌, inl, inr, is_empty, none, none-ne-some, remove_first,
  remove_first-Distinct, some, some_injective, ◌&&◌, ◌==◌, ◌∙◌, ◌≡◌, string_eq, nat_eq,
}
use anycable_go.Prelude.Dict.{Dict, delete, lookup, lookup-delete, lookup-is_empty, lookup-put, put}
use mathlib.Core.Path.{subst}
use anycable_go.Broker.Presence.Add.{IsRecord}
use anycable_go.Broker.Presence.View.{or_none, holds}
use anycable_go.Broker.Presence.{
  drop_member, leave_stream, PresenceEntry, PresenceSession, remove_session,
}

-- The value stored under `k` in the inner map `m` of key `j`, once `m` is dropped when empty.
lookup-or_drop {ℓ} :
    {V : Type ℓ} (j i k : String) (m : Dict String V) (ms : Dict String (Dict String V))
    → or_none (lookup i (if is_empty m then delete j ms else put j m ms)) (λ n. lookup k n)
      ≡ (if j == i then lookup k m else or_none (lookup i ms) (λ n. lookup k n))
lookup-or_drop j i k m ms = elim (Bool-cases (is_empty m)) [
  | inl gone ↦ rw gone (ground (arith, lookup-delete j i ms, lookup-is_empty k m gone))
  | inr kept ↦ rw kept (ground (arith, lookup-put j i m ms))
]

module _ {A : Type 0} (sid : String) (entry : PresenceEntry A) where
  -- What is left of a record without the session.
  abbrev pub left : Option (PresenceEntry A)
  left = if (remove_session sid entry).0 then none else some (remove_session sid entry).1

  pub holds-left :
      Distinct entry.sessions
      → (t : String) → holds t left ≡ (if sid == t then false else contains t entry.sessions)
  unfolding remove_session
  holds-left d t = ground (
    arith,
    ==_iff sid t,
    contains-remove_first sid t entry.sessions d,
    contains-is_empty t (remove_first sid entry.sessions),
  )

  pub left-IsRecord :
      (pid : String) (e : PresenceEntry A) → IsRecord pid entry → left ≡ some e → IsRecord pid e
  unfolding remove_session
  left-IsRecord pid e r h = elim (Bool-cases (contains sid entry.sessions)) [
    | inl there ↦ elim (Bool-cases (is_empty (remove_first sid entry.sessions))) [
      | inl last ↦ absurd (none-ne-some (rw (there, last) at h))
      | inr more ↦
          subst (IsRecord pid) (some_injective (rw (there, more) at h))
            (r.0, remove_first-Distinct sid entry.sessions r.1, more)
    ]
    | inr missing ↦ subst (IsRecord pid) (some_injective (rw missing at h)) r
  ]

module _ {A : Type 0} (stream sid pid : String) (entry : PresenceEntry A) where
  pub entry_at-drop_member :
      (present : Dict String (PresenceEntry A))
      (streams : Dict String (Dict String (PresenceEntry A)))
      → lookup stream streams ≡ some present
      → (s p : String)
      → or_none (lookup s (drop_member stream sid pid entry present streams).1) (λ m. lookup p m)
        ≡ (if stream == s && pid == p
            then left sid entry
            else or_none (lookup s streams) (λ m. lookup p m))
  unfolding drop_member
  entry_at-drop_member present streams e s p =
      lookup-or_drop stream s p after streams ∙ (elim (Bool-cases (stream == s)) [
        | inl here ↦
            let same : stream ≡ s = (==_iff stream s).0 here in
            let found : lookup s streams ≡ some present = rw same at e in
            rw (here, found) (ground (arith, lookup-delete pid p present, put_back))
        | inr there ↦ rw there
      ])
    where
      entry' : PresenceEntry A
      entry' = (remove_session sid entry).1

      after : Dict String (PresenceEntry A)
      after = if (remove_session sid entry).0 then delete pid present else put pid entry' present

      put_back :
          lookup p (put pid entry' present) ≡ (if pid == p then some entry' else lookup p present)
      put_back = lookup-put pid p entry' present

pub joined_as-leave_stream :
    (stream sid : String) (session : PresenceSession) (sessions : Dict String PresenceSession)
    → lookup sid sessions ≡ some session
    → (t s : String)
    → or_none (lookup t (leave_stream stream sid session sessions)) (λ x. lookup s x.streams) ≡ (
        if sid == t && stream == s
        then none
        else or_none (lookup t sessions) (λ x. lookup s x.streams))
unfolding leave_stream
joined_as-leave_stream stream sid session sessions e t s =
    let rest = delete stream session.streams in
    let kept : PresenceSession = record session { streams = rest } in
    elim (Bool-cases (sid == t)) [
      | inl its ↦
          let same : sid ≡ t = (==_iff sid t).0 its in
          let found : lookup t sessions ≡ some session = rw same at e in
          rw (its, found)
            (ground (
              arith,
              its,
              lookup-delete sid t sessions,
              lookup-put sid t kept sessions,
              lookup-delete stream s session.streams,
              lookup-is_empty s rest,
            ))
      | inr other ↦
          ground (arith, other, lookup-delete sid t sessions, lookup-put sid t kept sessions)
    ]
