-- ===== src/Node/DisconnectQueue.antt =====
-- node/disconnect_queue.go: the goroutines that enqueue sessions, the loop of Run that calls
-- Disconnect for them at a limited rate, and Shutdown, as steps that may come in any order.
pub mod Conservation
pub mod Drain
pub mod Stranded
pub mod Tests
use anycable_go.Prelude.{Bool, List, [], false, length, true, ℕ, ◌++◌, ◌<◌, ◌∷◌, ◌≡◌}

-- Where the loop of Run is.
pub data Runner : Type 0 where
  selecting : Runner
  -- It holds a session and waits for the ticker.
  throttled : ℕ → Runner
  returned : Runner

-- A session is a number. The last three lists are what has happened, the latest first.
pub record DisconnectQueue : Type 0 where
  -- The channel `disconnect`, and the size of its buffer, which is at least 1.
  pub waiting : List ℕ
  pub backlog : ℕ
  -- A value in the channel `shutdown`.
  pub signal : Bool
  pub is_stopped : Bool
  pub runner : Runner
  -- Shutdown is in its loop.
  pub draining : Bool
  -- Calls of Enqueue between the check of `isStopped` and the send.
  pub pending : List ℕ
  pub requested : List ℕ
  pub refused : List ℕ
  pub called : List ℕ

abbrev pub new_disconnect_queue : ℕ → DisconnectQueue
new_disconnect_queue backlog = record {
  waiting = [];
  backlog = backlog;
  signal = false;
  is_stopped = false;
  runner = selecting;
  draining = false;
  pending = [];
  requested = [];
  refused = [];
  called = [];
}

pub data Step : DisconnectQueue → DisconnectQueue → Type 0 where
  -- Enqueue passes its check, which gives the lock back before the send.
  enqueue_checks :
      (d : DisconnectQueue) (s : ℕ)
      → d.is_stopped ≡ false
      → Step d (record d { requested = s ∷ d.requested; pending = s ∷ d.pending })
  -- Enqueue returns at once.
  enqueue_returns :
      (d : DisconnectQueue) (s : ℕ)
      → d.is_stopped ≡ true
      → Step d (record d { requested = s ∷ d.requested; refused = s ∷ d.refused })
  -- Enqueue sends, once there is room.
  enqueue_sends :
      (d : DisconnectQueue) (s : ℕ) (xs ys : List ℕ)
      → d.pending ≡ xs ++ s ∷ ys
      → length d.waiting < d.backlog
      → Step d (record d { pending = xs ++ ys; waiting = d.waiting ++ s ∷ [] })
  run_takes :
      (d : DisconnectQueue) (s : ℕ) (ws : List ℕ)
      → d.runner ≡ selecting
      → d.waiting ≡ s ∷ ws
      → Step d (record d { runner = throttled s; waiting = ws })
  run_ticks :
      (d : DisconnectQueue) (s : ℕ)
      → d.runner ≡ throttled s
      → Step d (record d { runner = selecting; called = s ∷ d.called })
  run_returns :
      (d : DisconnectQueue)
      → d.runner ≡ selecting
      → d.signal ≡ true
      → Step d (record d { runner = returned; signal = false })
  shutdown_begins :
      (d : DisconnectQueue)
      → d.is_stopped ≡ false
      → Step d (record d { is_stopped = true; signal = true; draining = true })
  shutdown_calls :
      (d : DisconnectQueue) (s : ℕ) (ws : List ℕ)
      → d.draining ≡ true
      → d.waiting ≡ s ∷ ws
      → Step d (record d { waiting = ws; called = s ∷ d.called })
  -- The channel is empty.
  shutdown_returns :
      (d : DisconnectQueue)
      → d.draining ≡ true
      → d.waiting ≡ []
      → Step d (record d { draining = false })
  -- Its context is done.
  shutdown_fails :
      (d : DisconnectQueue) → d.draining ≡ true → Step d (record d { draining = false })

pub data Reach (d : DisconnectQueue) : DisconnectQueue → Type 0 where
  here : Reach d d
  next : {e f : DisconnectQueue} → Reach d e → Step e f → Reach d f
