-- ===== src/Node/DisconnectQueue/Tests.antt =====
-- The race of Enqueue and Shutdown of node/disconnect_queue.go: the session passes the check, both
-- loops return, and then it is sent.
use anycable_go.Prelude.{[], arith, false, refl, true, ◌+◌, ◌∷◌, ◌≡◌}
use anycable_go.Node.DisconnectQueue.Drain.{shutdown_settles}
use anycable_go.Node.DisconnectQueue.{
  DisconnectQueue, Reach, enqueue_checks, enqueue_sends, here, new_disconnect_queue, next, returned,
  run_returns, shutdown_begins, shutdown_returns, shutdown_calls, enqueue_returns,
}
use anycable_go.Node.DisconnectQueue.Conservation.{count, Reach-accounted}
use anycable_go.Node.DisconnectQueue.Stranded.{Same, Reach-Same}

abbrev checked : DisconnectQueue
checked = record (new_disconnect_queue 2) { requested = 7 ∷ []; pending = 7 ∷ [] }

abbrev stopped : DisconnectQueue
stopped = record checked { is_stopped = true; signal = true; draining = true }

abbrev left : DisconnectQueue
left = record stopped { signal = false; runner = returned }

abbrev ended : DisconnectQueue
ended = record left { draining = false }

abbrev stranded : DisconnectQueue
stranded = record ended { pending = []; waiting = 7 ∷ [] }

race : Reach (new_disconnect_queue 2) ended
race =
    next
      (next
        (next (next here (enqueue_checks (new_disconnect_queue 2) 7 refl))
          (shutdown_begins checked refl))
        (run_returns stopped refl refl))
      (shutdown_returns left refl refl)

afterwards : Reach ended stranded
afterwards = next here (enqueue_sends ended 7 [] [] refl (omega arith))

Reach-accounted_example :
    count 7 (7 ∷ []) + count 7 [] + 0 + count 7 [] + count 7 [] ≡ count 7 (7 ∷ [])
Reach-accounted_example = Reach-accounted 2 ended 7 race

Reach-Same_example : Same 7 ended stranded
Reach-Same_example = Reach-Same 7 afterwards (refl, refl, refl)

-- A session waits, Shutdown calls it, and returns.
abbrev full : DisconnectQueue
full = record stopped { pending = []; waiting = 7 ∷ [] }

abbrev drained : DisconnectQueue
drained = record full { waiting = []; called = 7 ∷ [] }

abbrev gone : DisconnectQueue
gone = record drained { draining = false }

draining_run : Reach (new_disconnect_queue 2) drained
draining_run =
    next
      (next
        (next (next here (enqueue_checks (new_disconnect_queue 2) 7 refl))
          (shutdown_begins checked refl))
        (enqueue_sends stopped 7 [] [] refl (omega arith)))
      (shutdown_calls full 7 [] refl refl)

abbrev refusing : DisconnectQueue
refusing = record gone { requested = 8 ∷ 7 ∷ []; refused = 8 ∷ [] }

shutdown_settles_example :
    (refusing.waiting ≡ [])
    × (refusing.pending ≡ [])
    × (count 7 refusing.called + count 7 refusing.refused + 0 ≡ count 7 refusing.requested)
shutdown_settles_example =
    shutdown_settles 2 7 drained gone refusing (shutdown_returns drained refl refl) draining_run
      refl refl (next here (enqueue_returns gone 8 refl))
