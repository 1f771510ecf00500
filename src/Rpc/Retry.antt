-- ===== src/Rpc/Retry.antt =====
-- retry of rpc/rpc.go: a call is made again while the application is busy or out of reach.
pub mod Bounds
pub mod Tests
use anycable_go.Prelude.{
  Bool, Option, false, if◌then◌else◌, ltb, none, not, some, suc, true, zero, ℕ, ◌*◌, ◌+◌, ◌^◌, ◌||◌,
}

-- What retry makes of the code of a gRPC error.
pub data Code : Type 0 where
  resource_exhausted unavailable another : Code

-- How one call ends. `broken` is an error that is not a gRPC status.
pub data Reply (R E : Type 0) : Type 0 where
  answered : R → Reply R E
  refused : Code → E → Reply R E
  broken : E → Reply R E

-- The other end: for each round, the error of `clientState.Ready`, if there is one, and the call.
pub record Wire (R E : Type 0) : Type 0 where
  pub unready : ℕ → Option E
  pub call : ℕ → Reply R E

pub data Ending (R E : Type 0) : Type 0 where
  returned : R → Ending R E
  failed : E → Ending R E
  out_of_fuel : Ending R E

-- The variables of the loop; times are in milliseconds.
pub record Backoff : Type 0 where
  pub retry_age : ℕ
  pub attempt : ℕ
  pub was_exhausted : Bool

abbrev pub no_backoff : Backoff
no_backoff = record { retry_age = 0; attempt = 0; was_exhausted = false }

abbrev pub invoke_timeout : ℕ
invoke_timeout = 3000

abbrev pub is_retryable : Code → Bool
is_retryable resource_exhausted = true
is_retryable unavailable = true
is_retryable another = false

abbrev pub interval : Code → ℕ
interval resource_exhausted = 10
interval unavailable = 100
interval another = 100

-- The number of attempts in a row, which starts again where the kind of the failure changes.
abbrev pub attempts : Code → Backoff → ℕ
attempts resource_exhausted b = if b.was_exhausted then b.attempt else 0
attempts unavailable b = if b.was_exhausted then 0 else b.attempt
attempts another b = if b.was_exhausted then 0 else b.attempt

abbrev pub is_exhausted : Code → Bool
is_exhausted resource_exhausted = true
is_exhausted unavailable = false
is_exhausted another = false

unfoldable pub delay : Code → Backoff → ℕ
delay code b = 2 ^ attempts code b * interval code

-- The end of a round that is followed by another.
unfoldable pub back_off : Code → Backoff → Backoff
back_off code b = record {
  retry_age = b.retry_age + delay code b;
  attempt = attempts code b + 1;
  was_exhausted = is_exhausted code;
}

-- How it ended, how many calls were made, and how long it slept.
pub record Run (R E : Type 0) : Type 0 where
  pub ending : Ending R E
  pub calls : ℕ
  pub slept : ℕ

-- One round, after `n` calls: it ends the loop or goes on.
unfoldable pub round :
    {R E : Type 0} → Option E → Reply R E → ℕ → Backoff → (Code → Run R E) → Run R E
round (some e) reply n b again = record { ending = failed e; calls = n; slept = b.retry_age }
round none (answered r) n b again = record {
  ending = returned r;
  calls = n + 1;
  slept = b.retry_age;
}
round none (broken e) n b again = record { ending = failed e; calls = n + 1; slept = b.retry_age }
round none (refused code e) n b again =
    if ltb invoke_timeout b.retry_age || not (is_retryable code)
    then record { ending = failed e; calls = n + 1; slept = b.retry_age }
    else again code

-- Every round but the last adds 10 or more to the age.
abbrev pub enough : ℕ
enough = 302

module _ {R E : Type 0} (w : Wire R E) where
  unfoldable pub retry_from : ℕ → ℕ → Backoff → Run R E
  unfolding round
  retry_from zero n b = record { ending = out_of_fuel; calls = n; slept = b.retry_age }
  retry_from (suc fuel) n b =
      round (w.unready n) (w.call n) n b (λ code. retry_from fuel (n + 1) (back_off code b))

  unfoldable pub retry : Run R E
  unfolding retry_from
  retry = retry_from enough 0 no_backoff
