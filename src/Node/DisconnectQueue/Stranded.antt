-- ===== src/Node/DisconnectQueue/Stranded.antt =====
-- The queue of node/disconnect_queue.go after both the loop and the shutdown have returned.
use anycable_go.Prelude.{[], ap, arith, false, refl, true, ℕ, ◌+◌, ◌∙◌, ◌∷◌, ◌≡◌}
use anycable_go.Node.DisconnectQueue.{
  here, next, enqueue_checks, enqueue_returns, enqueue_sends, run_takes, run_ticks, run_returns,
  shutdown_begins, shutdown_calls, shutdown_returns, shutdown_fails, DisconnectQueue, Step, Reach,
  returned,
}
use anycable_go.Node.DisconnectQueue.Conservation.{count, count-append}

-- The loop of Run and Shutdown have both returned.
abbrev pub IsEnded : DisconnectQueue → Type 0
IsEnded d = (d.runner ≡ returned) × (d.draining ≡ false) × (d.is_stopped ≡ true)

-- Nothing has been called since, and as many requests for the session are stuck.
abbrev pub Same : ℕ → DisconnectQueue → DisconnectQueue → Type 0
Same s d e =
    IsEnded e
    × (e.called ≡ d.called)
    × (count s e.pending + count s e.waiting ≡ count s d.pending + count s d.waiting)

Step-Same : {d e : DisconnectQueue} (s : ℕ) → Step d e → IsEnded d → Same s d e
unfolding count
Step-Same s (enqueue_checks d x open_) (at, off, stop) = cc
Step-Same s (enqueue_returns d x closed) v = (v, refl, refl)
Step-Same s (enqueue_sends d x xs ys e room) v = (
  v,
  refl,
  omega (
    arith,
    ap (count s) e,
    count-append s xs (x ∷ ys),
    count-append s xs ys,
    count-append s d.waiting (x ∷ []),
  ),
)
Step-Same s (run_takes d x ws here_ e) (at, off, stop) = cc
Step-Same s (run_ticks d x here_) (at, off, stop) = cc
Step-Same s (run_returns d here_ on) (at, off, stop) = cc
Step-Same s (shutdown_begins d open_) (at, off, stop) = cc
Step-Same s (shutdown_calls d x ws on e) (at, off, stop) = cc
Step-Same s (shutdown_returns d on e) (at, off, stop) = cc
Step-Same s (shutdown_fails d on) (at, off, stop) = cc

-- After the loop and Shutdown have both returned, no step calls Disconnect any more, and the
-- requests for a session that still wait or are about to be sent stay there for good.
pub Reach-Same : {d e : DisconnectQueue} (s : ℕ) → Reach d e → IsEnded d → Same s d e
Reach-Same s here v = (v, refl, refl)
Reach-Same s (next r st) v =
    let before = Reach-Same s r v in
    let after = Step-Same s st (before.0) in (after.0, after.1 ∙ before.1, after.2 ∙ before.2)
