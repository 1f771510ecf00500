-- ===== src/Broker/Memory/Sessions.antt =====
-- The session cache of broker/memory.go: CommitSession, RestoreSession, FinishSession and the
-- sessions' part of expire.
use anycable_go.Prelude.{
  ==_refl, Bool, Bool-cases, List, String, [], arith, false, if◌then◌else◌, inl, inr, ltb, none,
  refl, some, ℕ, ◌&&◌, ◌++◌, ◌+◌, ◌==◌, ◌||◌, ◌∙◌, ◌∷◌, ◌≡◌, ◌≤◌, string_eq, nat_eq,
}
use anycable_go.Prelude.Dict.{Dict, delete, lookup, lookup-delete}
use anycable_go.Common.{PresenceEvent}
use anycable_go.Broker.Memory.{
  Memory, ExpireSessionEntry, expire_sessions, restore_session, finish_session, expire,
}

-- The deadlines of the finished sessions lie between `lo` and `hi` and do not fall: they are given
-- out by a clock that does not go back, with one TTL.
abbrev pub Queued : ℕ → List ExpireSessionEntry → ℕ → Type 0
Queued lo [] hi = lo ≤ hi
Queued lo (e ∷ es) hi = (lo ≤ e.deadline) × Queued e.deadline es hi

-- A finished session whose deadline has passed.
unfoldable pub is_due : ℕ → String → List ExpireSessionEntry → Bool
is_due now sid [] = false
is_due now sid (e ∷ es) = (ltb e.deadline now && e.sid == sid) || is_due now sid es

is_due-later :
    (now lo hi : ℕ) (sid : String) (es : List ExpireSessionEntry)
    → Queued lo es hi
    → now ≤ lo
    → is_due now sid es ≡ false
unfolding is_due
is_due-later now lo hi sid [] q h = refl
is_due-later now lo hi sid (e ∷ es) q h = ground (arith, is_due-later now e.deadline hi sid es q.1)

lookup-expire_sessions :
    (now lo hi : ℕ) (sid : String) (es : List ExpireSessionEntry) (m : Dict String String)
    → Queued lo es hi
    → lookup sid (expire_sessions now es m).1 ≡ (if is_due now sid es then none else lookup sid m)
unfolding expire_sessions is_due
lookup-expire_sessions now lo hi sid [] m q = refl
lookup-expire_sessions now lo hi sid (e ∷ es) m q = elim (Bool-cases (ltb e.deadline now)) [
  | inl due ↦ ground (
    arith,
    due,
    lookup-expire_sessions now e.deadline hi sid es (delete e.sid m) q.1,
    lookup-delete e.sid sid m,
  )
  | inr later ↦ ground (arith, later, is_due-later now e.deadline hi sid es q.1)
]

Queued-append :
    (lo hi : ℕ) (es : List ExpireSessionEntry) (e : ExpireSessionEntry)
    → Queued lo es hi
    → hi ≤ e.deadline
    → Queued lo (es ++ e ∷ []) e.deadline
Queued-append lo hi [] e q h = omega arith
Queued-append lo hi (x ∷ es) e q h = (q.0, Queued-append x.deadline hi es e q.1 h)

Queued-expire_sessions :
    (now lo hi : ℕ) (es : List ExpireSessionEntry) (m : Dict String String)
    → Queued lo es hi
    → Queued 0 (expire_sessions now es m).0 hi
unfolding expire_sessions
Queued-expire_sessions now lo hi [] m q = omega arith
Queued-expire_sessions now lo hi (e ∷ es) m q =
    ground (arith, Queued-expire_sessions now e.deadline hi es (delete e.sid m) q.1)

is_due-append :
    (now : ℕ) (sid : String) (es : List ExpireSessionEntry) (e : ExpireSessionEntry)
    → is_due now sid (es ++ e ∷ []) ≡ (is_due now sid es || (ltb e.deadline now && e.sid == sid))
unfolding is_due
is_due-append now sid [] e = ground arith
is_due-append now sid (x ∷ es) e = ground (arith, is_due-append now sid es e)

-- The queue with the deadline of a session that is finished at `now`.
abbrev finished : {A : Type 0} → ℕ → String → Memory A → List ExpireSessionEntry
finished now sid b = b.expiring ++ record { deadline = now + b.config.sessions_ttl; sid = sid } ∷ []

finish_session-cached :
    {A : Type 0} (now : ℕ) (sid text : String) (b : Memory A)
    → lookup sid b.sessions ≡ some text
    → finish_session now sid b ≡ record b { expiring = finished now sid b }
unfolding finish_session
finish_session-cached now sid text b cached = rw (cached, finish_session)

module _ {A : Type 0} (to_json : PresenceEvent A → String) where
  -- Expiry drops from the cache exactly the sessions that are finished and whose deadline has
  -- passed, and keeps the queue of finished sessions in order.
  pub restore_session-expire :
      (now hi : ℕ) (sid : String) (b : Memory A)
      → Queued 0 b.expiring hi
      → (restore_session sid (expire to_json now b).1
          ≡ (if is_due now sid b.expiring then none else restore_session sid b))
        × Queued 0 (expire to_json now b).1.expiring hi
  unfolding restore_session expire
  restore_session-expire now hi sid b q = (
    lookup-expire_sessions now 0 hi sid b.expiring b.sessions q,
    Queued-expire_sessions now 0 hi b.expiring b.sessions q,
  )

  -- A cached session that is finished at `now` is restored after an expiry at any time up to `now`
  -- plus the sessions' TTL, and never after a later one. The deadlines given out before never fall
  -- in the order in which they were given out, and none is later than that time; no earlier
  -- deadline of the session has passed at the time of the expiry.
  pub restore_session-finish_session :
      (now later : ℕ) (sid text : String) (b : Memory A)
      → Queued 0 b.expiring (now + b.config.sessions_ttl)
      → lookup sid b.sessions ≡ some text
      → is_due later sid b.expiring ≡ false
      → restore_session sid (expire to_json later (finish_session now sid b)).1
        ≡ (if ltb (now + b.config.sessions_ttl) later then none else some text)
  unfolding restore_session
  restore_session-finish_session now later sid text b q cached fresh =
      let end = now + b.config.sessions_ttl in
      let e : ExpireSessionEntry = record { deadline = end; sid = sid } in
      let queued = Queued-append 0 end b.expiring e q (omega arith) in
      rw (finish_session-cached now sid text b cached) (
        (restore_session-expire later end sid (record b { expiring = finished now sid b }) queued).0
        ∙ rw (is_due-append, fresh, ==_refl sid, cached) (ground arith))
