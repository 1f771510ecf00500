-- ===== src/Node/Link.antt =====
-- The connection of a session in node/session.go: what is sent waits in a channel, a goroutine
-- writes it, and the session is closed and leaves the node.
pub mod Threads
pub mod Tests
use anycable_go.Prelude.{
  Bool, List, Option, String, [], false, if◌then◌else◌, length, ltb, none, not, some, true, ℕ, ◌&&◌,
  ◌++◌, ◌+◌, ◌==◌, ◌∷◌, string_eq, nat_eq,
}

-- SentFrame of ws/.
pub data Frame : Type 0 where
  text binary : String → Frame
  close : String → ℕ → Frame

pub record Link : Type 0 where
  pub connected : Bool
  pub closed : Bool
  -- `sendCh` is not nil; it is set to nil where it is closed.
  pub attached : Bool
  -- What is in the channel; it stays to be read once the channel is closed.
  pub waiting : List Frame
  -- SendMessages has not returned.
  pub sending : Bool
  pub ping_timer : Bool
  -- `none` where there is no timer, or else whether it runs.
  pub pong_timer : Option Bool
  -- What was written to the connection, the latest first, and whether it was closed.
  pub written : List Frame
  pub hung_up : Bool
  -- How often the executor's Disconnect was called.
  pub departures : ℕ

abbrev pub capacity : ℕ
capacity = 256

abbrev pub normal_closure : ℕ
normal_closure = 1000

abbrev pub going_away : ℕ
going_away = 1001

abbrev pub abnormal_closure : ℕ
abnormal_closure = 1006

-- NewSession, with the timers that its options ask for.
abbrev pub new_link : Bool → Bool → Link
new_link pings pongs = record {
  connected = false;
  closed = false;
  attached = true;
  waiting = [];
  sending = true;
  ping_timer = pings;
  pong_timer = if pings && pongs then some true else none;
  written = [];
  hung_up = false;
  departures = 0;
}

-- The part of sendFrame under the lock. The flag says that the channel was full.
unfoldable pub offer : Frame → Link → Link × Bool
offer f l =
    if not l.attached
    then (l, false)
    else if ltb (length l.waiting) capacity
    then (record l { waiting = l.waiting ++ f ∷ [] }, false)
    else (record l { attached = false }, true)

abbrev pub stopped : Option Bool → Option Bool
stopped none = none
stopped (some runs) = some false

abbrev pub started : Option Bool → Option Bool
started none = none
started (some runs) = some true

unfoldable pub close_link : Link → Link
close_link l =
    if l.closed
    then l
    else record l { closed = true; ping_timer = false; pong_timer = stopped l.pong_timer }

unfoldable pub disconnect_from_node : Link → Link
disconnect_from_node l =
    if l.connected then record l { connected = false; departures = l.departures + 1 } else l

-- Disconnect where sendClose has nothing left to do, since the channel is gone.
unfoldable pub leave : Link → Link
unfolding close_link disconnect_from_node
leave l = disconnect_from_node (close_link l)

-- The deferred Disconnect of a full channel finds it gone.
unfoldable pub send_frame : Frame → Link → Link
unfolding offer leave
send_frame f l = let (l', full) = offer f l in if full then leave l' else l'

unfoldable pub disconnect : String → ℕ → Link → Link
unfolding send_frame leave
disconnect reason code l = leave (send_frame (close reason code) l)

-- writeFrame, where `fails` says that the connection refuses: whether it went well.
unfoldable pub write_frame : Bool → Frame → Link → Link × Bool
write_frame fails (text payload) l =
    if fails then (l, false) else (record l { written = text payload ∷ l.written }, true)
write_frame fails (binary payload) l =
    if fails then (l, false) else (record l { written = binary payload ∷ l.written }, true)
write_frame fails (close reason code) l =
    (record l { written = close reason code ∷ l.written; hung_up = true }, false)

unfoldable pub disconnect_now : String → ℕ → Link → Link
unfolding disconnect_from_node write_frame close_link
disconnect_now reason code l =
    if not l.connected
    then l
    else let l' = (write_frame false (close reason code) (disconnect_from_node l)).0 in
      close_link (record l' { attached = false })

abbrev pub is_close : Frame → Bool
is_close (close reason code) = true
is_close (text payload) = false
is_close (binary payload) = false

-- One turn of SendMessages. With nothing left in a closed channel it returns.
unfoldable pub send_next : Bool → Link → Link
unfolding write_frame disconnect_now
send_next fails l = if not l.sending then l else elim l.waiting [
  | [] ↦ if l.attached then l else record l { sending = false }
  | f ∷ fs ↦
      let (l', went) = write_frame fails f (record l { waiting = fs }) in
      if is_close f
      then record (disconnect_now "Close frame sent" normal_closure l') { sending = false }
      else if went
      then l'
      else record (disconnect_now "Write Failed" abnormal_closure l') { sending = false }
]

-- sendPing writes past the channel. The message is encoded to a frame or to nothing, and `none`
-- says that this failed.
unfoldable pub send_ping : Bool → Option (Option Frame) → Link → Link
unfolding write_frame disconnect
send_ping fails ping l = if l.closed then l else elim ping [
  | none ↦ disconnect "Ping failed" abnormal_closure l
  | some encoded ↦ elim encoded [
    | none ↦ record l { ping_timer = true }
    | some f ↦
        let (l', went) = write_frame fails f l in
        if went
        then record l' { ping_timer = true }
        else disconnect "Ping failed" abnormal_closure l'
  ]
]

unfoldable pub handle_no_pong : Frame → Link → Link
unfolding send_frame disconnect
handle_no_pong message l =
    if not l.connected then l else disconnect "No Pong" normal_closure (send_frame message l)

unfoldable pub maybe_disconnect_idle : Frame → Link → Link
unfolding send_frame disconnect
maybe_disconnect_idle message l =
    if l.connected then l else disconnect "Idle Timeout" normal_closure (send_frame message l)

-- DisconnectWithMessage: the reason and the code of the frame go by the message's reason.
abbrev pub closing_of : String → String × ℕ
closing_of code =
    if code == "server_restart"
    then ("Server restart", going_away)
    else if code == "remote"
    then ("Closed remotely", normal_closure)
    else ("", normal_closure)

unfoldable pub disconnect_with_message : Frame → String → Link → Link
unfolding send_frame disconnect
disconnect_with_message message code l =
    let (reason, ws_code) = closing_of code in disconnect reason ws_code (send_frame message l)

pub keepalive : Link → Link
keepalive l = record l { pong_timer = stopped l.pong_timer }

pub reset_pong : Link → Link
reset_pong l = record l { pong_timer = started l.pong_timer }
