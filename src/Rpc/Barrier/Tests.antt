-- ===== src/Rpc/Barrier/Tests.antt =====
-- Two calls at a barrier of two.
use anycable_go.Prelude.{refl, some, ◌+◌, ◌≡◌, ◌≤◌, ◌⊎◌}
use anycable_go.Rpc.Barrier.{
  FixedSizeBarrier, Traffic, Reach, quiet, here, next, arrives, begins, acquire, release,
  new_fixed_size_barrier, busy_count, Reach-busy_count,
}

abbrev two : FixedSizeBarrier
two = record { capacity = 2; sem = 2 }

abbrev one : FixedSizeBarrier
one = record { capacity = 2; sem = 1 }

abbrev working : Traffic
working = record { barrier = one; pending = 1; running = 1 }

begun : Reach (quiet two) working
unfolding acquire
begun =
    next (next (next here (arrives (quiet two))) (arrives (record (quiet two) { pending = 1 })))
      (begins (record (quiet two) { pending = 2 }) 1 one refl refl)

Reach-busy_count_example :
    (busy_count working.barrier ≡ working.running)
    × (working.running ≤ 2)
    × ((working.running ≡ 0)
        ⊎ ((b : FixedSizeBarrier) × (release working.barrier ≡ some b)
            × (busy_count b + 1 ≡ working.running)))
unfolding new_fixed_size_barrier
Reach-busy_count_example = Reach-busy_count 2 two working refl begun
