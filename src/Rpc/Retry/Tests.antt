-- ===== src/Rpc/Retry/Tests.antt =====
-- An application that is busy, then out of reach, and then answers.
use anycable_go.Prelude.{String, none, refl, suc, zero, ℕ, ◌≡◌}
use anycable_go.Rpc.Retry.{
  Wire, Reply, retry, answered, refused, resource_exhausted, back_off, delay, unavailable, returned,
}
use anycable_go.Rpc.Retry.Bounds.{IsBounded, retry-IsBounded}

abbrev replies : ℕ → Reply String String
replies zero = refused resource_exhausted "busy"
replies (suc zero) = refused resource_exhausted "busy"
replies (suc (suc zero)) = refused unavailable "away"
replies (suc (suc (suc n))) = answered "done"

abbrev wire : Wire String String
wire = record { unready = λ n. none; call = replies }

retried : retry wire ≡ record { ending = returned "done"; calls = 4; slept = 130 }
unfolding retry back_off delay
retried = refl

retry-IsBounded_example : IsBounded (retry wire)
retry-IsBounded_example = retry-IsBounded wire
