-- ===== src/Rpc/Shutdown/Tests.antt =====
-- A shutdown while two calls are in flight, which end soon after.
use anycable_go.Prelude.{Option, arith, none, refl, suc, zero, ℕ, ◌≡◌}
use anycable_go.Rpc.Retry.{failed}
use anycable_go.Rpc.Shutdown.{HelperError, shutdown, terminated, shutdown_at_once}

abbrev usable_always : ℕ → Option HelperError
usable_always n = none

abbrev in_flight : ℕ → ℕ
in_flight zero = 2
in_flight (suc n) = 0

shutdown_at_once_example :
    shutdown usable_always in_flight
    ≡ record { ending = failed (terminated 2); calls = 1; slept = 0 }
shutdown_at_once_example = shutdown_at_once usable_always in_flight refl (omega arith)
