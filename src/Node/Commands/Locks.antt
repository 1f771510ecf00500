-- ===== src/Node/Commands/Locks.antt =====
-- The session's lock in node/node.go, after a subscription that the controller fails.
use anycable_go.Prelude.{
  ==_iff, Bool, Bool-cases, Option, String, [], arith, err, false, inl, inr, refl, true, ◌==◌, ◌||◌,
  ◌≡◌, string_eq, nat_eq,
}
use anycable_go.Common.Commands.{CommandResult, Message}
use anycable_go.Node.Subscriptions.{has_channel}
use anycable_go.Node.Steps.{Session, done, waits}
use anycable_go.Node.Commands.{
  World, handle_command, subscribe, unsubscribe, perform, history, presence, change_presence,
  is_failed, controller_failed, lock, check_channel,
}

-- The commands that look at the session's channels.
abbrev pub takes_lock : String → Bool
takes_lock c =
    c == "subscribe"
    || (c == "unsubscribe"
        || (c == "message"
            || (c == "history" || (c == "presence" || (c == "join" || c == "leave")))))

module _ {A M : Type 0} (w : World A M) (msg : Message A) (s : Session)
    (held : s.locked ≡ true) where
  subscribe_waits : subscribe w msg s ≡ waits
  unfolding subscribe
  subscribe_waits = rw (subscribe, lock, held) refl

  unsubscribe_waits : unsubscribe w msg s ≡ waits
  unfolding unsubscribe
  unsubscribe_waits = rw (unsubscribe, lock, held) refl

  check_waits : check_channel w msg.identifier s ≡ waits
  unfolding check_channel
  check_waits = rw (check_channel, lock, held) refl

  perform_waits : perform w msg s ≡ waits
  unfolding perform
  perform_waits = rw check_waits refl

  history_waits : history w msg s ≡ waits
  unfolding history
  history_waits = rw check_waits refl

  presence_waits : presence w msg s ≡ waits
  unfolding presence
  presence_waits = rw check_waits refl

  change_presence_waits : (joins : Bool) → change_presence w joins msg s ≡ waits
  unfolding change_presence
  change_presence_waits joins = rw check_waits refl

  pub handle_command_waits : takes_lock msg.command ≡ true → handle_command w msg s ≡ waits
  unfolding handle_command
  handle_command_waits t = elim (Bool-cases (msg.command == "subscribe")) [
    | inl y0 ↦ rw (handle_command, (==_iff msg.command "subscribe").0 y0, subscribe_waits) refl
    | inr n0 ↦ elim (Bool-cases (msg.command == "unsubscribe")) [
      | inl y1 ↦
          rw (handle_command, (==_iff msg.command "unsubscribe").0 y1, unsubscribe_waits) refl
      | inr n1 ↦ elim (Bool-cases (msg.command == "message")) [
        | inl y2 ↦ rw (handle_command, (==_iff msg.command "message").0 y2, perform_waits) refl
        | inr n2 ↦ elim (Bool-cases (msg.command == "history")) [
          | inl y3 ↦ rw (handle_command, (==_iff msg.command "history").0 y3, history_waits) refl
          | inr n3 ↦ elim (Bool-cases (msg.command == "presence")) [
            | inl y4 ↦
                rw (handle_command, (==_iff msg.command "presence").0 y4, presence_waits) refl
            | inr n4 ↦ elim (Bool-cases (msg.command == "join")) [
              | inl y5 ↦
                  rw (handle_command, (==_iff msg.command "join").0 y5, change_presence_waits) refl
              | inr n5 ↦
                  let last : msg.command ≡ "leave" =
                    (==_iff msg.command "leave").0 (ground (arith, t, n0, n1, n2, n3, n4, n5)) in
                  rw (handle_command, last, change_presence_waits) refl
            ]
          ]
        ]
      ]
    ]
  ]

-- A subscription to a new channel that the controller answers with an error, and no result or one
-- of the status ERROR, gives the error and keeps the session's lock. From then on every command
-- that looks at the session's channels waits for the lock without an end.
pub subscribe_failed_waits :
    {A M : Type 0} (w : World A M) (msg : Message A) (s : Session) (res : Option CommandResult)
    → s.locked ≡ false
    → has_channel msg.identifier s.subscriptions ≡ false
    → w.controller_subscribe s.uid s.env s.env.identifiers msg.identifier ≡ (res, true)
    → is_failed res ≡ true
    → (subscribe w msg s ≡ done (err controller_failed) (record s { locked = true }) [])
      × ((later : World A M) (next : Message A)
          → takes_lock next.command ≡ true
          → handle_command later next (record s { locked = true }) ≡ waits)
unfolding subscribe
subscribe_failed_waits w msg s res free new answer failed = (
  rw (subscribe, free, new, answer, failed) refl,
  λ later next t. handle_command_waits later next (record s { locked = true }) refl t,
)
