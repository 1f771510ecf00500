-- ===== src/Broker/Nats/Sync/Waits.antt =====
-- How long streamSync of broker/nats.go holds a reader up, with timers that ring on time.
use anycable_go.Prelude.{
  All, Bool-cases, List, Option, arith, false, if◌then◌else◌, inl, inr, ltb, none, not, refl, some,
  true, ℕ, ◌&&◌, ◌+◌, ◌∷◌, ◌≡◌, ◌≤◌,
}
use anycable_go.Broker.Nats.Sync.{
  StreamSync, new_stream_sync, idle, restart, forgotten, sync_timeout, sync_period,
}

-- No timer is overdue.
abbrev pub Punctual : ℕ → StreamSync → Type 0
Punctual now s = All (λ t. now ≤ t) (forgotten s.timer s.left_over)

-- What can happen to a stream, from one time to another. Time passes and messages are consumed, but
-- no timer is passed over: it rings before.
pub data Step : ℕ → StreamSync → ℕ → StreamSync → Type 0 where
  passes : {t : ℕ} {s : StreamSync} (now : ℕ) → t ≤ now → Punctual now s → Step t s now s
  consumes : {t : ℕ} {s : StreamSync} → Step t s t (restart t s)
  rings :
      {t : ℕ} {s : StreamSync} → s.timer ≡ some t → Step t s t (idle (record s { timer = none }))
  rings_late :
      {t : ℕ} {s : StreamSync} (ts : List ℕ)
      → s.left_over ≡ t ∷ ts
      → Step t s t (idle (record s { left_over = ts }))

-- A stream that gets idle closes its channel, which lets go on whoever waits there.
abbrev pub after_close : StreamSync → StreamSync → Option ℕ → Option ℕ
after_close s s' reader = if s.active && not s'.active then none else reader

-- A stream with the time since it is known, and the time since which a reader waits in `sync`, if one
-- does. A reader that finds the stream active takes its channel at once: that the stream gets idle and
-- active again in between, when it would take the next channel, is not covered.
pub data Watch : ℕ → StreamSync → Option ℕ → Type 0 where
  begins : Watch 0 new_stream_sync none
  reads :
      {t : ℕ} {s : StreamSync} {reader : Option ℕ}
      → s.active ≡ true
      → Watch t s reader
      → Watch t s (some t)
  next :
      {t t' : ℕ} {s s' : StreamSync} {reader : Option ℕ}
      → Watch t s reader
      → Step t s t' s'
      → Watch t' s' (after_close s s' reader)

-- An active stream has a timer, which rings within the limit.
abbrev pub IsTimed : ℕ → StreamSync → Type 0
IsTimed now s =
    s.active ≡ true
    → (due : ℕ) × (s.timer ≡ some due)
      × (due ≤ s.active_since + 250)
      × (now ≤ due)
      × (s.active_since ≤ now)

idle_active : (s : StreamSync) → (idle s).active ≡ false
unfolding idle
idle_active s = ground arith

leb_of : (a b : ℕ) → ltb a b ≡ false → b ≤ a
leb_of a b h = ground arith

restart-IsTimed : (t : ℕ) (s : StreamSync) → IsTimed t s → IsTimed t (restart t s)
unfolding restart idle
restart-IsTimed t s h a = elim (Bool-cases s.active) [
  | inl on ↦ elim (Bool-cases (ltb (s.active_since + sync_timeout) t)) [
    | inl long ↦ ground (arith, idle_active s)
    | inr short ↦
        let (due, e, early, later, since) = h on in
        rw (on, short) (t + sync_period, refl, omega (arith, leb_of _ _ short), omega arith, since)
  ]
  | inr off ↦ rw off (t + sync_period, refl, omega arith, omega arith, omega arith)
]

Step-IsTimed : {t t' : ℕ} {s s' : StreamSync} → Step t s t' s' → IsTimed t s → IsTimed t' s'
Step-IsTimed (passes now later p) h = λ a.
    let (due, e, early, later', since) = h a in
    let punctual : now ≤ due = (rw e at p).0 in (due, e, early, punctual, omega arith)
Step-IsTimed (consumes {t = t} {s = s}) h = restart-IsTimed t s h
Step-IsTimed (rings {s = s} e) h =
    λ a. absurd (grind (arith, idle_active (record s { timer = none })))
Step-IsTimed (rings_late {s = s} ts e) h =
    λ a. absurd (grind (arith, idle_active (record s { left_over = ts })))

Watch-IsTimed : {t : ℕ} {s : StreamSync} {reader : Option ℕ} → Watch t s reader → IsTimed t s
unfolding new_stream_sync
Watch-IsTimed begins = cc
Watch-IsTimed (reads a w) = Watch-IsTimed w
Watch-IsTimed (next w st) = Step-IsTimed st (Watch-IsTimed w)

-- Who waits came after the stream had become active.
abbrev IsHeld : StreamSync → Option ℕ → Type 0
IsHeld s none = Unit
IsHeld s (some t0) = (s.active ≡ true) × (s.active_since ≤ t0)

-- An active stream keeps the time since which it is active.
Step-active_since :
    {t t' : ℕ} {s s' : StreamSync}
    → Step t s t' s'
    → s.active ≡ true
    → s'.active ≡ true
    → s'.active_since ≡ s.active_since
unfolding restart idle
Step-active_since (passes now later p) on on' = refl
Step-active_since (consumes {t = t} {s = s}) on on' = ground (arith, on)
Step-active_since (rings {s = s} e) on on' =
    absurd (grind (arith, idle_active (record s { timer = none })))
Step-active_since (rings_late {s = s} ts e) on on' =
    absurd (grind (arith, idle_active (record s { left_over = ts })))

after_close-IsHeld :
    {t t' : ℕ} {s s' : StreamSync} (reader : Option ℕ)
    → Step t s t' s'
    → IsHeld s reader
    → IsHeld s' (after_close s s' reader)
after_close-IsHeld {s = s} {s' = s'} none st h = elim (Bool-cases (s.active && not s'.active)) [
  | inl closed ↦ rw closed tt
  | inr open_ ↦ rw open_ tt
]
after_close-IsHeld {s = s} {s' = s'} (some t0) st h = elim (Bool-cases s'.active) [
  | inl on ↦ rw (h.0, on) (refl, rw (Step-active_since st h.0 on) h.1)
  | inr off ↦ rw (h.0, off) tt
]

Watch-IsHeld : {t : ℕ} {s : StreamSync} {reader : Option ℕ} → Watch t s reader → IsHeld s reader
Watch-IsHeld begins = tt
Watch-IsHeld (reads a w) = let (due, e, early, later, since) = Watch-IsTimed w a in (a, since)
Watch-IsHeld (next {reader = reader} w st) = after_close-IsHeld reader st (Watch-IsHeld w)

-- A reader that waits for a stream since `t0` does so for 250 milliseconds at most, however many
-- messages are consumed meanwhile, with timers that ring on time: in every state in which it still
-- waits, no more has passed.
pub reader_released : {t : ℕ} {s : StreamSync} (t0 : ℕ) → Watch t s (some t0) → t ≤ t0 + 250
reader_released t0 w =
    let (on, came) = Watch-IsHeld w in
    let (due, e, early, later, since) = Watch-IsTimed w on in omega arith
