-- ===== src/Node/Steps.antt =====
-- A session while a command runs, what the command does to the rest of the program, and the lock
-- `smu` of node/session.go, which a command may wait for.
use anycable_go.Prelude.{Bool, List, Option, String, [], false, if◌then◌else◌, true, ◌++◌, ◌∷◌}
use anycable_go.Common.{StreamMessage, Reply, PresenceInfo}
use anycable_go.Common.Env.{SessionEnv}
use anycable_go.Node.Subscriptions.{SubscriptionState}

pub record Session : Type 0 where
  pub uid : String
  pub env : SessionEnv
  pub subscriptions : SubscriptionState
  -- `smu` is held.
  pub locked : Bool
  pub resumable : Bool
  pub disconnect_interest : Bool
  -- Authenticated or restored, and not yet disconnected.
  pub connected : Bool
  -- The session of the client's connection before, or an empty text.
  pub prev_sid : String

-- The calls to the hub, the broker and the connection, in order.
pub data Effect (A M : Type 0) : Type 0 where
  hub_subscribe hub_unsubscribe : String → String → Effect A M
  hub_unsubscribe_channel : String → Effect A M
  broker_subscribe broker_unsubscribe : String → Effect A M
  broker_broadcast node_broadcast : StreamMessage → Effect A M
  commit_session : Effect A M
  send : Reply M → Effect A M
  send_presence : String → PresenceInfo A → Effect A M
  transmit : String → Effect A M
  presence_add : String → String → Option A → Effect A M
  presence_remove : String → Effect A M
  disconnect : String → Effect A M
  hub_add_session hub_remove_session hub_remove_session_later : Effect A M
  finish_session finish_presence enqueue_disconnect : Effect A M
  controller_disconnect : String → List String → Effect A M

-- How a piece of a command ends: with a value, in a nil dereference, or never, at a lock that
-- nobody gives back.
pub data Step (A M X : Type 0) : Type 0 where
  done : X → Session → List (Effect A M) → Step A M X
  panics : Step A M X
  waits : Step A M X

abbrev pub Op : Type 0 → Type 0 → Type 0 → Type 0
Op A M X = Session → Step A M X

-- The effects of what came before stand first.
abbrev pub behind : {A M X : Type 0} → List (Effect A M) → Step A M X → Step A M X
behind es (done x s fs) = done x s (es ++ fs)
behind es panics = panics
behind es waits = waits

abbrev pub and_then : {A M X Y : Type 0} → Step A M X → (X → Op A M Y) → Step A M Y
and_then (done x s es) f = behind es (f x s)
and_then panics f = panics
and_then waits f = waits

infixl 5 ◌>>=◌
abbrev pub ◌>>=◌ : {A M X Y : Type 0} → Op A M X → (X → Op A M Y) → Op A M Y
(m >>= f) s = and_then (m s) f

infixl 5 ◌>>◌
abbrev pub ◌>>◌ : {A M X Y : Type 0} → Op A M X → Op A M Y → Op A M Y
(m >> n) s = and_then (m s) (λ x. n)

module _ {A M : Type 0} where
  abbrev pub give : {X : Type 0} → X → Op A M X
  give x s = done x s []

  abbrev pub get : Op A M Session
  get s = done s s []

  abbrev pub modify : (Session → Session) → Op A M Unit
  modify f s = done tt (f s) []

  abbrev pub emit : Effect A M → Op A M Unit
  emit e s = done tt s (e ∷ [])

  -- Disconnect of the session: beside what the effect does to the connection, and to the node if the
  -- session was connected, the session is no longer connected.
  abbrev pub close_connection : String → Op A M Unit
  close_connection reason s = done tt (record s { connected = false }) (disconnect reason ∷ [])

  abbrev pub crash : {X : Type 0} → Op A M X
  crash s = panics

  -- `s.smu.Lock()`: with nobody else to unlock it, a held lock is waited for without an end.
  abbrev pub lock : Op A M Unit
  lock s = if s.locked then waits else done tt (record s { locked = true }) []

  abbrev pub unlock : Op A M Unit
  unlock s = done tt (record s { locked = false }) []

  abbrev pub when : Bool → Op A M Unit → Op A M Unit
  when true m = m
  when false m = give tt

  abbrev pub for_each : {X : Type 0} → (X → Op A M Unit) → List X → Op A M Unit
  for_each f [] = give tt
  for_each f (x ∷ xs) = f x >> for_each f xs
