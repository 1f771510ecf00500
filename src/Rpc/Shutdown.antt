-- ===== src/Rpc/Shutdown.antt =====
-- Shutdown of rpc/rpc.go, and grpcClientHelper, which tells whether the connection can be used.
mod Tests
use anycable_go.Prelude.{
  Bool, List, Option, [], ap, arith, false, if◌then◌else◌, ltb, none, refl, some, suc, true, zero,
  ℕ, ◌<◌, ◌∷◌, ◌≡◌,
}
use anycable_go.Rpc.Retry.{
  Wire, Reply, Run, Ending, retry, retry_from, round, answered, broken, failed, enough, no_backoff,
}

-- The states of a gRPC connection that the code tells apart.
pub data Connectivity : Type 0 where
  closed transient_failure usable : Connectivity

pub data HelperError : Type 0 where
  connection_closed connection_not_ready : HelperError

-- Ready, with `recovering`: the error, if any, and whether the connection is being recovered. The
-- second component says whether the connection was told to reconnect at once.
pub ready : Connectivity → Bool → Option HelperError × Bool × Bool
ready closed recovering = (some connection_closed, false, recovering)
ready transient_failure true = (some connection_not_ready, false, true)
ready transient_failure false = (none, true, true)
ready usable recovering = (none, false, false)

-- The states of the connection that one call of Ready after the other finds: the errors, in order.
unfoldable pub ready_all : List Connectivity → Bool → List (Option HelperError)
unfolding ready
ready_all [] recovering = []
ready_all (s ∷ ss) recovering =
    let (e, told, recovering') = ready s recovering in e ∷ ready_all ss recovering'

-- From a lost connection on that is not being recovered, one call is let through, and all others are
-- refused for as long as the connection stays lost.
unfoldable pub lost : ℕ → List Connectivity
lost zero = []
lost (suc n) = transient_failure ∷ lost n

unfoldable pub refusals : ℕ → List (Option HelperError)
refusals zero = []
refusals (suc n) = some connection_not_ready ∷ refusals n

ready_all-recovering : (n : ℕ) → ready_all (lost n) true ≡ refusals n
unfolding ready_all ready lost refusals
ready_all-recovering zero = refl
ready_all-recovering (suc n) = ap (λ r. some connection_not_ready ∷ r) (ready_all-recovering n)

-- However often Ready is asked while the connection is lost, it lets one call through, the first.
pub ready_all-lost : (n : ℕ) → ready_all (lost (suc n)) false ≡ none ∷ refusals n
unfolding ready_all ready lost
ready_all-lost n = ap (λ r. none ∷ r) (ready_all-recovering n)

pub data ShutdownError : Type 0 where
  helper_failed : HelperError → ShutdownError
  terminated : ℕ → ShutdownError

-- The callback that is repeated: it fails, with an error that is not a gRPC status, while calls are
-- in flight.
pub await : ℕ → Reply Bool ShutdownError
await busy = if ltb 0 busy then broken (terminated busy) else answered true

-- `unready` is the error of Ready and `busy` the calls in flight, in each round. After the loop the
-- barrier is stopped and the client is closed, whatever it gave.
pub shutdown : (ℕ → Option HelperError) → (ℕ → ℕ) → Run Bool ShutdownError
unfolding await
shutdown unready busy = retry (record {
  unready = λ n. elim (unready n) [ none ↦ none | some e ↦ some (helper_failed e) ];
  call = λ n. await (busy n);
})

module _ {R E : Type 0} (w : Wire R E) (e : E) (usable_now : w.unready 0 ≡ none)
    (breaks : w.call 0 ≡ broken e) where
  first_round :
      (fuel : ℕ)
      → retry_from w (suc fuel) 0 no_backoff ≡ record { ending = failed e; calls = 1; slept = 0 }
  unfolding retry_from round
  first_round fuel = rw (usable_now, breaks) refl

  -- An error that is not a gRPC status ends the loop.
  retry_broken : retry w ≡ record { ending = failed e; calls = 1; slept = 0 }
  unfolding retry
  retry_broken = first_round 301

await_busy : (busy : ℕ) → 0 < busy → await busy ≡ broken (terminated busy)
unfolding await
await_busy busy some_busy = ground arith

-- Shutdown does not wait for the calls in flight: if there are any when it begins, and the connection
-- can be used, it ends with an error after one look and no sleep, whatever becomes of the calls.
pub shutdown_at_once :
    (unready : ℕ → Option HelperError) (busy : ℕ → ℕ)
    → unready 0 ≡ none
    → 0 < busy 0
    → shutdown unready busy ≡ record { ending = failed (terminated (busy 0)); calls = 1; slept = 0 }
unfolding shutdown
shutdown_at_once unready busy usable_now some_busy =
    retry_broken
      (record {
        unready = λ n. elim (unready n) [ none ↦ none | some e ↦ some (helper_failed e) ];
        call = λ n. await (busy n);
      })
      (terminated (busy 0)) (rw usable_now refl) (await_busy (busy 0) some_busy)
