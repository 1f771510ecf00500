-- ===== src/Node/DisconnectQueue/Conservation.antt =====
-- No session is lost or called twice inside the queue of node/disconnect_queue.go: where each
-- request is.
use anycable_go.Prelude.{
  List, [], ap, arith, if◌then◌else◌, refl, ℕ, ◌++◌, ◌+◌, ◌==◌, ◌∷◌, ◌≡◌, string_eq, nat_eq,
}
use anycable_go.Node.DisconnectQueue.{
  here, next, enqueue_checks, enqueue_returns, enqueue_sends, run_takes, run_ticks, run_returns,
  shutdown_begins, shutdown_calls, shutdown_returns, shutdown_fails, DisconnectQueue, Runner, Step,
  Reach, new_disconnect_queue, selecting, throttled, returned,
}

-- How often the session occurs.
unfoldable pub count : ℕ → List ℕ → ℕ
count s [] = 0
count s (x ∷ xs) = (if x == s then 1 else 0) + count s xs

pub count-append : (s : ℕ) (xs ys : List ℕ) → count s (xs ++ ys) ≡ count s xs + count s ys
unfolding count
count-append s [] ys = omega arith
count-append s (x ∷ xs) ys = omega (arith, count-append s xs ys)

abbrev pub held : ℕ → Runner → ℕ
held s (throttled x) = if x == s then 1 else 0
held s selecting = 0
held s returned = 0

-- The requests for a session that are on their way, done or refused.
abbrev pub accounted : ℕ → DisconnectQueue → ℕ
accounted s d =
    count s d.pending + count s d.waiting + held s d.runner + count s d.called + count s d.refused

Step-accounted :
    {d e : DisconnectQueue} (s : ℕ)
    → Step d e
    → accounted s d ≡ count s d.requested
    → accounted s e ≡ count s e.requested
unfolding count
Step-accounted s (enqueue_checks d x open_) h = omega (arith, h)
Step-accounted s (enqueue_returns d x closed) h = omega (arith, h)
Step-accounted s (enqueue_sends d x xs ys e room) h = omega (
  arith,
  h,
  ap (count s) e,
  count-append s xs (x ∷ ys),
  count-append s xs ys,
  count-append s d.waiting (x ∷ []),
)
Step-accounted s (run_takes d x ws at e) h = omega (arith, h, ap (held s) at, ap (count s) e)
Step-accounted s (run_ticks d x at) h = omega (arith, h, ap (held s) at)
Step-accounted s (run_returns d at on) h = omega (arith, h, ap (held s) at)
Step-accounted s (shutdown_begins d open_) h = h
Step-accounted s (shutdown_calls d x ws on e) h = omega (arith, h, ap (count s) e)
Step-accounted s (shutdown_returns d on e) h = h
Step-accounted s (shutdown_fails d on) h = h

Reach-accounted-from :
    {backlog : ℕ} {d : DisconnectQueue} (s : ℕ)
    → Reach (new_disconnect_queue backlog) d
    → accounted s d ≡ count s d.requested
unfolding count
Reach-accounted-from s here = refl
Reach-accounted-from s (next r st) = Step-accounted s st (Reach-accounted-from s r)

-- In every state that a new queue reaches, each session has been requested exactly as often as it
-- is about to be sent, waits, is held by the loop, has been disconnected or was refused, taken
-- together: no request is lost and none is carried out twice.
pub Reach-accounted :
    (backlog : ℕ) (d : DisconnectQueue) (s : ℕ)
    → Reach (new_disconnect_queue backlog) d
    → accounted s d ≡ count s d.requested
Reach-accounted backlog d s r = Reach-accounted-from s r
