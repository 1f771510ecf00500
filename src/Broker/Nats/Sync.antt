-- ===== src/Broker/Nats/Sync.antt =====
-- streamSync and streamsSynchronizer of broker/nats.go: a reader of the history waits while messages
-- of the stream are being consumed. Times are milliseconds.
pub mod Waits
use anycable_go.Prelude.{
  Bool, List, Option, String, [], false, if◌then◌else◌, ltb, none, some, true, ℕ, ◌+◌, ◌∷◌,
  string_eq, nat_eq,
}
use anycable_go.Prelude.Dict.{Dict, delete, lookup, put}

abbrev pub sync_timeout : ℕ
sync_timeout = 200

abbrev pub sync_period : ℕ
sync_period = 50

-- `timer` is the time at which s.timer rings, if it is set and has not rung. `left_over` has the times
-- of earlier timers that were neither stopped nor set again.
pub record StreamSync : Type 0 where
  pub active : Bool
  pub active_since : ℕ
  pub timer : Option ℕ
  pub left_over : List ℕ

unfoldable pub new_stream_sync : StreamSync
new_stream_sync = record { active = false; active_since = 0; timer = none; left_over = [] }

pub idle : StreamSync → StreamSync
idle s = if s.active then record s { active = false } else s

-- `s.timer = time.AfterFunc(…)` forgets the timer that was there.
abbrev pub forgotten : Option ℕ → List ℕ → List ℕ
forgotten none ts = ts
forgotten (some t) ts = t ∷ ts

unfoldable pub restart : ℕ → StreamSync → StreamSync
unfolding idle
restart now s =
    if s.active
    then (if ltb (s.active_since + sync_timeout) now
        then idle s
        else record s { timer = some (now + sync_period) })
    else record {
      active = true;
      active_since = now;
      timer = some (now + sync_period);
      left_over = forgotten s.timer s.left_over;
    }

abbrev pub Synchronizer : Type 0
Synchronizer = Dict String StreamSync

-- Whether `sync` waits: it returns once the stream is idle.
pub must_wait : String → Synchronizer → Bool
must_wait stream m = elim (lookup stream m) [ none ↦ false | some s ↦ s.active ]

pub touch : ℕ → String → Synchronizer → Synchronizer
unfolding restart new_stream_sync
touch now stream m = elim (lookup stream m) [
  | some s ↦ put stream (restart now s) m
  | none ↦ put stream (restart now new_stream_sync) m
]

-- The readers that wait for the stream go on, and the stream is forgotten.
pub remove : String → Synchronizer → Synchronizer
remove stream m = delete stream m
