-- ===== src/Node/DisconnectQueue/Drain.antt =====
-- The loop of Shutdown in node/disconnect_queue.go: it returns without an error once the channel is
-- empty, and what can still be in the queue after that.
use anycable_go.Prelude.{Bool, [], ap, arith, false, refl, true, ℕ, ◌+◌, ◌∷◌, ◌≡◌}
use anycable_go.Node.DisconnectQueue.{
  here, next, enqueue_checks, enqueue_returns, enqueue_sends, run_takes, run_ticks, run_returns,
  shutdown_begins, shutdown_calls, shutdown_returns, shutdown_fails, DisconnectQueue, Step, Reach,
  new_disconnect_queue,
}
use anycable_go.Node.DisconnectQueue.Conservation.{accounted, count, held, Reach-accounted}

-- Whether the step is Shutdown's return without an error.
abbrev pub is_return : {d e : DisconnectQueue} → Step d e → Bool
is_return (shutdown_returns d on e) = true
is_return (enqueue_checks d x open_) = false
is_return (enqueue_returns d x closed) = false
is_return (enqueue_sends d x xs ys e room) = false
is_return (run_takes d x ws at e) = false
is_return (run_ticks d x at) = false
is_return (run_returns d at on) = false
is_return (shutdown_begins d open_) = false
is_return (shutdown_calls d x ws on e) = false
is_return (shutdown_fails d on) = false

abbrev Stops : DisconnectQueue → Type 0
Stops d = d.draining ≡ true → d.is_stopped ≡ true

-- Who drains has stopped the queue before.
Step-Stops : {d e : DisconnectQueue} → Step d e → Stops d → Stops e
Step-Stops (enqueue_checks d x open_) v = v
Step-Stops (enqueue_returns d x closed) v = v
Step-Stops (enqueue_sends d x xs ys e room) v = v
Step-Stops (run_takes d x ws at e) v = v
Step-Stops (run_ticks d x at) v = v
Step-Stops (run_returns d at on) v = v
Step-Stops (shutdown_begins d open_) v = λ on. refl
Step-Stops (shutdown_calls d x ws on e) v = v
Step-Stops (shutdown_returns d on e) v = cc
Step-Stops (shutdown_fails d on) v = cc

Reach-Stops : {backlog : ℕ} {d : DisconnectQueue} → Reach (new_disconnect_queue backlog) d → Stops d
Reach-Stops here = cc
Reach-Stops (next r st) = Step-Stops st (Reach-Stops r)

-- Stopped, with an empty channel and nobody about to send.
abbrev IsSettled : DisconnectQueue → Type 0
IsSettled d = (d.is_stopped ≡ true) × (d.waiting ≡ []) × (d.pending ≡ [])

return-IsSettled :
    {d e : DisconnectQueue} (st : Step d e)
    → is_return st ≡ true
    → Stops d
    → d.pending ≡ []
    → IsSettled e
return-IsSettled (shutdown_returns d on e) h v p = (v on, e, p)
return-IsSettled (enqueue_checks d x open_) h v p = absurd (cc)
return-IsSettled (enqueue_returns d x closed) h v p = absurd (cc)
return-IsSettled (enqueue_sends d x xs ys e room) h v p = absurd (cc)
return-IsSettled (run_takes d x ws at e) h v p = absurd (cc)
return-IsSettled (run_ticks d x at) h v p = absurd (cc)
return-IsSettled (run_returns d at on) h v p = absurd (cc)
return-IsSettled (shutdown_begins d open_) h v p = absurd (cc)
return-IsSettled (shutdown_calls d x ws on e) h v p = absurd (cc)
return-IsSettled (shutdown_fails d on) h v p = absurd (cc)

Step-IsSettled : {d e : DisconnectQueue} → Step d e → IsSettled d → IsSettled e
Step-IsSettled (enqueue_checks d x open_) v = absurd (cc (open_, v.0))
Step-IsSettled (enqueue_returns d x closed) v = v
Step-IsSettled (enqueue_sends d x [] ys e room) v = absurd (cc (e, v.2))
Step-IsSettled (enqueue_sends d x (y ∷ xs) ys e room) v = absurd (cc (e, v.2))
Step-IsSettled (run_takes d x ws at e) v = absurd (cc (e, v.1))
Step-IsSettled (run_ticks d x at) v = v
Step-IsSettled (run_returns d at on) v = v
Step-IsSettled (shutdown_begins d open_) v = absurd (cc (open_, v.0))
Step-IsSettled (shutdown_calls d x ws on e) v = absurd (cc (e, v.1))
Step-IsSettled (shutdown_returns d on e) v = v
Step-IsSettled (shutdown_fails d on) v = v

Reach-IsSettled : {d e : DisconnectQueue} → IsSettled d → Reach d e → IsSettled e
Reach-IsSettled v here = v
Reach-IsSettled v (next r st) = Step-IsSettled st (Reach-IsSettled v r)

after : {d e f : DisconnectQueue} → Reach d e → Reach e f → Reach d f
after r here = r
after r (next q st) = next (after r q) st

-- When Shutdown of a queue returns without an error at a moment at which nobody is between the check
-- and the send of Enqueue, nothing is stranded: in every later state the channel is empty, nobody is
-- about to send, and each session has been requested exactly as often as it has been disconnected,
-- was refused or is held by the loop of Run.
pub shutdown_settles :
    (backlog s : ℕ) (d e f : DisconnectQueue) (st : Step d e)
    → Reach (new_disconnect_queue backlog) d
    → d.pending ≡ []
    → is_return st ≡ true
    → Reach e f
    → (f.waiting ≡ [])
      × (f.pending ≡ [])
      × (count s f.called + count s f.refused + held s f.runner ≡ count s f.requested)
unfolding count
shutdown_settles backlog s d e f st r idle returns later =
    let settled = Reach-IsSettled (return-IsSettled st returns (Reach-Stops r) idle) later in
    let sum : accounted s f ≡ count s f.requested =
      Reach-accounted backlog f s (after (next r st) later) in
    (settled.1, settled.2, omega (arith, sum, ap (count s) (settled.1), ap (count s) (settled.2)))
