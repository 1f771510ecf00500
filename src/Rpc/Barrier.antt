-- ===== src/Rpc/Barrier.antt =====
-- rpc/barrier.go: a semaphore that bounds the calls to the application, and the calls of
-- rpc/rpc.go that take and give back its tickets, in any order.
pub mod Tests
use anycable_go.Prelude.{
  Option, arith, if◌then◌else◌, inl, inr, ltb, none, none-ne-some, refl, some, suc, zero, ℕ, ◌+◌,
  ◌-◌, ◌==◌, ◌≡◌, ◌≤◌, ◌⊎◌, string_eq, nat_eq,
}

-- `sem` is the number of tickets in the channel.
pub record FixedSizeBarrier : Type 0 where
  pub capacity : ℕ
  pub sem : ℕ

-- An error for a capacity of 0.
unfoldable pub new_fixed_size_barrier : ℕ → Option FixedSizeBarrier
new_fixed_size_barrier zero = none
new_fixed_size_barrier (suc n) = some (record { capacity = suc n; sem = suc n })

-- `none` says that the caller waits.
unfoldable pub acquire : FixedSizeBarrier → Option FixedSizeBarrier
acquire b = if b.sem == 0 then none else some (record b { sem = b.sem - 1 })

unfoldable pub release : FixedSizeBarrier → Option FixedSizeBarrier
release b = if ltb b.sem b.capacity then some (record b { sem = b.sem + 1 }) else none

abbrev pub busy_count : FixedSizeBarrier → ℕ
busy_count b = b.capacity - b.sem

-- The calls that have a ticket, and those that wait for one: the gauge of pending calls.
pub record Traffic : Type 0 where
  pub barrier : FixedSizeBarrier
  pub pending : ℕ
  pub running : ℕ

abbrev pub quiet : FixedSizeBarrier → Traffic
quiet b = record { barrier = b; pending = 0; running = 0 }

-- Authenticate, Subscribe, Unsubscribe, Perform and Disconnect all begin and end like this.
pub data Step : Traffic → Traffic → Type 0 where
  arrives : (t : Traffic) → Step t (record t { pending = t.pending + 1 })
  begins :
      (t : Traffic) (n : ℕ) (b : FixedSizeBarrier)
      → t.pending ≡ n + 1
      → acquire t.barrier ≡ some b
      → Step t (record { barrier = b; pending = n; running = t.running + 1 })
  finishes :
      (t : Traffic) (n : ℕ) (b : FixedSizeBarrier)
      → t.running ≡ n + 1
      → release t.barrier ≡ some b
      → Step t (record t { barrier = b; running = n })

pub data Reach (t : Traffic) : Traffic → Type 0 where
  here : Reach t t
  next : {u v : Traffic} → Reach t u → Step u v → Reach t v

-- Each ticket is in the channel or with a running call.
abbrev IsBalanced : ℕ → Traffic → Type 0
IsBalanced n t = (t.barrier.capacity ≡ n) × (t.barrier.sem + t.running ≡ n)

Step-IsBalanced : (c : ℕ) {t u : Traffic} → Step t u → IsBalanced c t → IsBalanced c u
unfolding acquire release
Step-IsBalanced c (arrives t) v = v
Step-IsBalanced c (begins t n b waits got) v = ground arith
Step-IsBalanced c (finishes t n b runs gave) v = ground arith

Reach-IsBalanced : (c : ℕ) {t u : Traffic} → IsBalanced c t → Reach t u → IsBalanced c u
Reach-IsBalanced c v here = v
Reach-IsBalanced c v (next r st) = Step-IsBalanced c st (Reach-IsBalanced c v r)

zero_or_suc : (n : ℕ) → (n ≡ 0) ⊎ ((k : ℕ) × (n ≡ k + 1))
zero_or_suc zero = inl refl
zero_or_suc (suc k) = inr (k, omega arith)

-- A call that runs can give its ticket back.
can_release :
    (c : ℕ) (t : Traffic)
    → IsBalanced c t
    → (t.running ≡ 0)
      ⊎ ((b' : FixedSizeBarrier) × (release t.barrier ≡ some b') × (busy_count b' + 1 ≡ t.running))
unfolding release
can_release c t v = elim (zero_or_suc t.running) [
  | inl none_run ↦ inl none_run
  | inr (n, runs) ↦ inr (
    record t.barrier { sem = t.barrier.sem + 1 },
    ground (arith, v.0, v.1, runs),
    omega (arith, v.0, v.1, runs),
  )
]

-- With a barrier made for a capacity, in every state that calls can reach, BusyCount is the number
-- of running calls, no more calls run than the capacity, and either no call runs or a call that
-- runs can give its ticket back without waiting, after which one call less is busy.
pub Reach-busy_count :
    (capacity : ℕ) (b : FixedSizeBarrier) (t : Traffic)
    → new_fixed_size_barrier capacity ≡ some b
    → Reach (quiet b) t
    → (busy_count t.barrier ≡ t.running)
      × (t.running ≤ capacity)
      × ((t.running ≡ 0)
          ⊎ ((b' : FixedSizeBarrier) × (release t.barrier ≡ some b')
              × (busy_count b' + 1 ≡ t.running)))
unfolding new_fixed_size_barrier release
Reach-busy_count zero b t made r = absurd (none-ne-some made)
Reach-busy_count (suc c) b t made r =
    let v : IsBalanced (suc c) t =
      Reach-IsBalanced (suc c) (ground (arith, made), ground (arith, made)) r in
    (omega (arith, v.0, v.1), omega (arith, v.1), can_release (suc c) t v)
