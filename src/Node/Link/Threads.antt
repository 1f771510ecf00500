-- ===== src/Node/Link/Threads.antt =====
-- The goroutines that work on one session's connection in node/session.go, as the pieces that each
-- does under the lock or in one call of the connection, in any order.
pub mod Sound
pub mod Abandoned
pub mod Runs
use anycable_go.Prelude.{Bool, List, Option, String, false, true, ℕ, ◌+◌, ◌∷◌, ◌≡◌}
use anycable_go.Node.Link.{Link, Frame, offer, close_link, disconnect_from_node, write_frame}

-- Beside the connection: how often the session was authenticated, and how many goroutines stand in
-- disconnectNow before they close the connection and before they close the channel.
pub record Machine : Type 0 where
  pub link : Link
  pub connects : ℕ
  pub checked : ℕ
  pub detaching : ℕ

abbrev pub start : Link → Machine
start l = record { link = l; connects = 0; checked = 0; detaching = 0 }

-- The frame is written to the connection.
abbrev pub writes : Bool → Frame → Machine → Machine
writes fails f m = record m { link = (write_frame fails f m.link).0 }

pub data Step : Machine → Machine → Type 0 where
  -- Authenticate or TryRestoreSession, which nothing keeps from running again.
  authenticates :
      (m : Machine)
      → Step m (record m { link = record m.link { connected = true }; connects = m.connects + 1 })
  offers : (m : Machine) (f : Frame) → Step m (record m { link = (offer f m.link).0 })
  closes : (m : Machine) → Step m (record m { link = close_link m.link })
  leaves : (m : Machine) → Step m (record m { link = disconnect_from_node m.link })
  -- disconnectNow finds the session connected, closes the connection, and then the channel.
  enters : (m : Machine) → m.link.connected ≡ true → Step m (record m { checked = m.checked + 1 })
  hangs_up :
      (m : Machine) (reason : String) (code n : ℕ)
      → m.checked ≡ n + 1
      → Step m (record (writes false (Frame.close reason code) m) {
        checked = n;
        detaching = m.detaching + 1;
      })
  detaches :
      (m : Machine) (n : ℕ)
      → m.detaching ≡ n + 1
      → Step m (record m { link = record m.link { attached = false }; detaching = n })
  -- SendMessages writes the frame that has waited longest.
  takes :
      (m : Machine) (fails : Bool) (f : Frame) (fs : List Frame)
      → m.link.sending ≡ true
      → m.link.waiting ≡ f ∷ fs
      → Step m (writes fails f (record m { link = record m.link { waiting = fs } }))
  stops : (m : Machine) → Step m (record m { link = record m.link { sending = false } })
  -- sendPing writes past the channel.
  pings :
      (m : Machine) (fails : Bool) (payload : String) → Step m (writes fails (Frame.text payload) m)
  sets_timers :
      (m : Machine) (ping : Bool) (pong : Option Bool)
      → Step m (record m { link = record m.link { ping_timer = ping; pong_timer = pong } })

pub data Reach (m : Machine) : Machine → Type 0 where
  here : Reach m m
  next : {n o : Machine} → Reach m n → Step n o → Reach m o
