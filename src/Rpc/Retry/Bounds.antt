-- ===== src/Rpc/Retry/Bounds.antt =====
-- The loop of retry in rpc/rpc.go ends: how many calls it makes and how long it sleeps.
use anycable_go.Prelude.{
  Bool, Bool-cases, Option, arith, false, inl, inr, ltb, none, not, some, suc, true, zero, ℕ, ◌*◌,
  ◌+◌, ◌^◌, ◌||◌, ◌≡◌, ◌≢◌, ◌≤◌,
}
use native.Mathlib.Nat.{pow-suc}
use native.Mathlib.Numerals.{towards_suc}
use anycable_go.Rpc.Retry.{
  Code, Reply, Wire, Backoff, Run, no_backoff, invoke_timeout, is_retryable, delay, back_off,
  retry_from, retry, out_of_fuel, resource_exhausted, unavailable, another, answered, refused,
  broken, enough, round,
}

pow_suc : (a : ℕ) → 2 ^ (a + 1) ≡ 2 * 2 ^ a
pow_suc a = simp towards_suc (omega arith)

abbrev unit_of : Bool → ℕ
unit_of true = 10
unit_of false = 100

-- After `n` calls: the age has grown by 10 at least each time, and the next delay of the same kind is
-- not longer than the age and one interval together.
record IsPaced (n : ℕ) (b : Backoff) : Type 0 where
  few : n ≤ 301
  grown : 10 * n ≤ b.retry_age
  next_delay : 2 ^ b.attempt * unit_of b.was_exhausted ≤ b.retry_age + unit_of b.was_exhausted
  capped : b.retry_age ≤ 6100

pow_pos : (a : ℕ) → 1 ≤ 2 ^ a
pow_pos zero = omega arith
pow_pos (suc a) = omega (arith, pow-suc 2 a, pow_pos a)

back_off-IsPaced :
    (n : ℕ) (code : Code) (age attempt : ℕ) (x : Bool)
    → is_retryable code ≡ true
    → age ≤ invoke_timeout
    → IsPaced n (record { retry_age = age; attempt = attempt; was_exhausted = x })
    → IsPaced
        (n + 1)
        (back_off code (record { retry_age = age; attempt = attempt; was_exhausted = x }))
unfolding back_off delay
back_off-IsPaced n resource_exhausted age a true h young v = record {
  few = omega (arith, v.grown);
  grown = omega (arith, v.grown, pow_pos a);
  next_delay = omega (arith, v.next_delay, pow_suc a);
  capped = omega (arith, v.next_delay);
}
back_off-IsPaced n resource_exhausted age a false h young v = omega (arith, v.grown)
back_off-IsPaced n unavailable age a true h young v = omega (arith, v.grown)
back_off-IsPaced n unavailable age a false h young v = record {
  few = omega (arith, v.grown);
  grown = omega (arith, v.grown, pow_pos a);
  next_delay = omega (arith, v.next_delay, pow_suc a);
  capped = omega (arith, v.next_delay);
}
back_off-IsPaced n another age a x h young v = absurd (cc)

-- The loop has ended by itself, after at most 302 calls and 6100 milliseconds of sleep.
abbrev pub IsBounded : {R E : Type 0} → Run R E → Type 0
IsBounded run = (run.ending ≢ out_of_fuel) × (run.calls ≤ 302) × (run.slept ≤ 6100)

round-IsBounded :
    {R E : Type 0} (o : Option E) (reply : Reply R E) (n : ℕ) (b : Backoff) (again : Code → Run R E)
    → IsPaced n b
    → ((code : Code)
        → is_retryable code ≡ true
        → b.retry_age ≤ invoke_timeout
        → IsBounded (again code))
    → IsBounded (round o reply n b again)
unfolding round
round-IsBounded (some e) reply n b again v go = (λ q. cc q, omega (arith, v.few), v.capped)
round-IsBounded none (answered r) n b again v go = (λ q. cc q, omega (arith, v.few), v.capped)
round-IsBounded none (broken e) n b again v go = (λ q. cc q, omega (arith, v.few), v.capped)
round-IsBounded none (refused code e) n b again v go =
    elim (Bool-cases (ltb invoke_timeout b.retry_age || not (is_retryable code))) [
      | inl over ↦ rw (round, over) (λ q. cc q, omega (arith, v.few), v.capped)
      | inr more ↦ rw (round, more) (go code (ground (arith, more)) (ground (arith, more)))
    ]

module _ {R E : Type 0} (w : Wire R E) where
  retry_from-IsBounded :
      (fuel n : ℕ) (b : Backoff) → 302 ≤ n + fuel → IsPaced n b → IsBounded (retry_from w fuel n b)
  unfolding retry_from
  retry_from-IsBounded zero n b h v = absurd (omega (arith, h, v.few))
  retry_from-IsBounded (suc fuel) n b h v =
      round-IsBounded (w.unready n) (w.call n) n b _ v (λ code good young.
        retry_from-IsBounded fuel (n + 1) (back_off code b) (omega (arith, h))
          (back_off-IsPaced n code b.retry_age b.attempt b.was_exhausted good young v))

  -- Whatever the other end answers, the loop of `retry` ends by itself, after at most 302 calls and
  -- at most 6100 milliseconds of sleep in all.
  pub retry-IsBounded : IsBounded (retry w)
  unfolding retry
  retry-IsBounded = retry_from-IsBounded enough 0 no_backoff (omega arith) (record {
    few = omega arith;
    grown = omega arith;
    next_delay = omega arith;
    capped = omega arith;
  })
