-- ===== src/Broker/Tracker.antt =====
-- StreamsTracker of broker/broker.go: which streams this node has subscribed to.
use anycable_go.Prelude.{
  ==_iff, Bool, Option-cases, String, [], ap, arith, false, if◌then◌else◌, inl, inr, none, not,
  refl, some, suc, true, zero, ℕ, ◌%◌, ◌&&◌, ◌+◌, ◌<◌, ◌==◌, ◌^◌, ◌||◌, ◌≡◌, ◌≢◌, ◌≤◌, string_eq,
  nat_eq,
}
use anycable_go.Prelude.Dict.{Dict, delete, lookup, lookup-delete, lookup-put, put}

pub record StreamsTracker : Type 0 where
  pub store : Dict String ℕ

abbrev pub new_streams_tracker : StreamsTracker
new_streams_tracker = record { store = [] }

-- uint64 `++`.
abbrev pub incr : ℕ → ℕ
incr n = (n + 1) % 2 ^ 64

pub add : String → StreamsTracker → Bool × StreamsTracker
add name s = elim (lookup name s.store) [
  | none ↦ (true, record { store = put name 1 s.store })
  | some n ↦ (false, record { store = put name (incr n) s.store })
]

pub has : String → StreamsTracker → Bool
has name s = elim (lookup name s.store) [ none ↦ false | some n ↦ true ]

pub remove : String → StreamsTracker → Bool × StreamsTracker
remove name s = elim (lookup name s.store) [
  | none ↦ (false, s)
  | some n ↦ if n == 1 then (true, record { store = delete name s.store }) else (false, s)
]

-- A stream is new exactly when it is not tracked.
pub add-fst : (name : String) (s : StreamsTracker) → (add name s).0 ≡ not (has name s)
unfolding add has
add-fst name s = ground arith

-- Afterwards the stream is tracked, and every other stream is as before.
pub has-add : (k j : String) (s : StreamsTracker) → has j (add k s).1 ≡ ((k == j) || has j s)
unfolding add has
has-add k j s = elim (Option-cases (lookup k s.store)) [
  | inl e ↦ ground (arith, lookup-put k j 1 s.store)
  | inr (n, e) ↦ ground (arith, lookup-put k j (incr n) s.store, ==_iff k j)
]

-- A stream goes exactly when `remove` says that it was the last one.
pub has-remove :
    (k j : String) (s : StreamsTracker)
    → has j (remove k s).1 ≡ (if k == j then has j s && not (remove k s).0 else has j s)
unfolding remove has
has-remove k j s = ground (arith, ==_iff k j, lookup-delete k j s.store)

pub remove_tracked : (k : String) (s : StreamsTracker) → (remove k s).0 ≡ true → has k s ≡ true
unfolding remove has
remove_tracked k s h = ground arith

pub has-empty : (name : String) → has name new_streams_tracker ≡ false
unfolding has lookup
has-empty name = refl

pub remove_times : ℕ → String → StreamsTracker → StreamsTracker
remove_times zero name s = s
remove_times (suc k) name s = remove_times k name (remove name s).1

-- `remove` does not count down: a stream with a count other than 1 stays as it is.
remove_shared :
    (name : String) (s : StreamsTracker) (n : ℕ)
    → lookup name s.store ≡ some n
    → n ≢ 1
    → remove name s ≡ (false, s)
unfolding remove
remove_shared name s n e h = ground arith

remove_times_shared :
    (k : ℕ) (name : String) (s : StreamsTracker) (n : ℕ)
    → lookup name s.store ≡ some n
    → n ≢ 1
    → remove_times k name s ≡ s
unfolding remove_times
remove_times_shared zero name s n e h = refl
remove_times_shared (suc k) name s n e h =
    rw (ap (λ r. r.1) (remove_shared name s n e h)) (remove_times_shared k name s n e h)

add_again :
    (name : String) (s : StreamsTracker) (n : ℕ)
    → lookup name s.store ≡ some n
    → lookup name (add name s).1.store ≡ some (incr n)
unfolding add
add_again name s n e = ground (arith, lookup-put name name (incr n) s.store, ==_iff name name)

-- When a stream that is tracked with a count of at least 1, and less than 2^64 - 1, is added once
-- more, no number of removals releases it: it stays tracked, and no removal reports the last one.
pub remove-add_again :
    (k : ℕ) (name : String) (s : StreamsTracker) (n : ℕ)
    → lookup name s.store ≡ some n
    → 1 ≤ n
    → n + 1 < 2 ^ 64
    → let t = remove_times k name (add name s).1 in
      (t ≡ (add name s).1) × (has name t ≡ true) × (remove name t ≡ (false, t))
remove-add_again k name s n e pos small =
    let again = add_again name s n e in
    let many : incr n ≢ 1 = omega arith in
    rw (remove_times_shared k name (add name s).1 (incr n) again many)
      (refl, unfold has in rw (again, has), remove_shared name (add name s).1 (incr n) again many)
