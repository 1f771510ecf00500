-- ===== src/PubSub/Delivered.antt =====
-- What of a broadcast reaches the hub of a node, on its way through the broker, and between nodes.
use anycable_go.Prelude.{
  Bool, Bool-cases, List, Option, Option-cases, Result-cases, String, [], ap, false, if◌then◌else◌,
  inl, inr, map, none, refl, some, sym, true, ◌++◌, ◌==◌, ◌∙◌, ◌∷◌, ◌≡◌, string_eq, nat_eq,
}
use mathlib.Core.Option
use mathlib.Core.List.{append-nil}
use anycable_go.Common.{StreamMessage, RemoteCommandMessage}
use anycable_go.Common.PubSub.{
  Decoder, PubSubMessage, one, batch, command, pub_sub_message_from_json, from_batch,
  to_remote_disconnect_message,
}
use anycable_go.Broker.Calls
use anycable_go.Broker.Calls.{Call}
use anycable_go.Broker.Tracker
use anycable_go.Broker.Legacy
use anycable_go.Broker.Legacy.{LegacyBroker}
use anycable_go.Node.Broadcasts.{
  Asked, Local, record_message, record_command, deliver, remote_disconnect, record_all, deliver_all,
  handle_broadcast, handle_pub_sub, execute_remote_command,
}
use anycable_go.PubSub.{pass_on, pass_all, handle_message, publish, Encoder}

-- What a node with the legacy broker and the subscriber without a service does with a call to its
-- broker; `none` is the panic at a nil message.
unfoldable pub carry : Decoder → LegacyBroker → Asked → Option (List Local)
carry dec b (record_message none) = none
carry dec b (record_message (some m)) = some (pass_all dec (Legacy.handle_broadcast m b))
carry dec b (record_command c) = some (pass_all dec (Legacy.handle_command c))

-- What the hub gets, and whether a panic ends it.
abbrev before : List Local → List Local × Bool → List Local × Bool
before ls (rest, panicked) = (ls ++ rest, panicked)

unfoldable pub carry_all : Decoder → LegacyBroker → List Asked → List Local × Bool
carry_all dec b [] = ([], false)
carry_all dec b (a ∷ as_) =
    let rest = carry_all dec b as_ in
    elim (carry dec b a) [ none ↦ ([], true) | some ls ↦ before ls rest ]

-- Of what the hub would get, what has subscribers to its stream, up to the first nil message, and
-- whether there is one.
unfoldable pub heard : LegacyBroker → List Local → List Local × Bool
heard b [] = ([], false)
heard b (deliver none ∷ ls) = ([], true)
heard b (deliver (some m) ∷ ls) =
    let rest = heard b ls in
    if Tracker.has m.stream b.tracker then before (deliver (some m) ∷ []) rest else rest
heard b (remote_disconnect d ∷ ls) = before (remote_disconnect d ∷ []) (heard b ls)

module _ (dec : Decoder) (b : LegacyBroker) where
  heard_command :
      (c : RemoteCommandMessage)
      → heard b (execute_remote_command dec c) ≡ (execute_remote_command dec c, false)
  unfolding execute_remote_command heard
  heard_command c = elim (Bool-cases (c.command == "disconnect")) [
    | inl closes ↦ elim (Option-cases (to_remote_disconnect_message dec c)) [
      | inl unread ↦ rw (closes, unread, execute_remote_command) refl
      | inr (d, read) ↦ rw (closes, read, execute_remote_command) refl
    ]
    | inr other ↦ rw (other, execute_remote_command) refl
  ]

  carry_command :
      (c : RemoteCommandMessage)
      → carry_all dec b (record_command c ∷ []) ≡ heard b (execute_remote_command dec c)
  unfolding carry carry_all Legacy.handle_command pass_all pass_on
  carry_command c =
      ap (λ ls. (ls, false))
        (append-nil (execute_remote_command dec c ++ [])
          ∙ append-nil (execute_remote_command dec c))
      ∙ sym (heard_command c)

  joined :
      (m : StreamMessage) (as_ : List Asked) (ls : List Local)
      → carry_all dec b as_ ≡ heard b ls
      → carry_all dec b (record_message (some m) ∷ as_) ≡ heard b (deliver (some m) ∷ ls)
  unfolding carry_all carry heard Legacy.handle_broadcast pass_all pass_on
  joined m as_ ls same = elim (Bool-cases (Tracker.has m.stream b.tracker)) [
    | inl tracked ↦ rw (same, tracked) refl
    | inr untracked ↦ rw (same, untracked) refl
  ]

  batch_carried :
      (ms : List (Option StreamMessage))
      → carry_all dec b (map record_message ms) ≡ heard b (map deliver ms)
  batch_carried [] = unfold carry_all in unfold heard in refl
  batch_carried (none ∷ ms) = unfold carry_all in unfold carry in unfold heard in refl
  batch_carried (some m ∷ ms) = joined m (map record_message ms) (map deliver ms) (batch_carried ms)

  carried :
      (msg : PubSubMessage) → carry_all dec b (record_all dec msg) ≡ heard b (deliver_all dec msg)
  unfolding record_all deliver_all
  carried (one m) = joined m [] [] (unfold carry_all in unfold heard in refl)
  carried (batch ms) = batch_carried ms
  carried (command c) = carry_command c

  -- Of what comes in a broadcast of the application, the hub of a node with the legacy broker gets,
  -- in order, exactly that of what it would get from the pub/sub layer whose stream is tracked, and
  -- every remote disconnect, up to the first nil message of a batch. The broker panics if there is
  -- one, after what came before it, while the pub/sub layer hands it to the hub and goes on. A text
  -- at which the decoder panics makes both panic.
  pub broadcast_is_heard :
      (raw : String)
      → Option.map (carry_all dec b) (handle_broadcast dec raw)
        ≡ Option.map (heard b) (handle_pub_sub dec raw)
  unfolding handle_broadcast handle_pub_sub
  broadcast_is_heard raw = elim (Result-cases (pub_sub_message_from_json dec raw)) [
    | inl (msg, read) ↦ rw (read, handle_broadcast, handle_pub_sub) (ap some (carried msg))
    | inr (inl (e, failed)) ↦
        rw (failed, handle_broadcast, handle_pub_sub) (unfold carry_all in unfold heard in refl)
    | inr (inr crash) ↦ rw (crash, handle_broadcast, handle_pub_sub) refl
  ]

taken_message :
    (dec : Decoder) (raw : String) (m : StreamMessage)
    → dec.as_stream raw ≡ some m
    → (m.stream == "") ≡ false
    → handle_message dec raw ≡ some (deliver (some m) ∷ [])
unfolding handle_message pub_sub_message_from_json
taken_message dec raw m back named =
    rw (back, named, handle_message, pub_sub_message_from_json) refl

taken_command :
    (dec : Decoder) (raw : String) (c : RemoteCommandMessage) (blank : StreamMessage)
    → dec.as_stream raw ≡ some blank
    → (blank.stream == "") ≡ true
    → dec.as_batch raw ≡ none
    → dec.as_command raw ≡ some c
    → handle_message dec raw ≡ some (execute_remote_command dec c)
unfolding handle_message pub_sub_message_from_json from_batch
taken_command dec raw c blank other nameless no_batch back =
    rw (other, nameless, no_batch, back, handle_message, pub_sub_message_from_json) refl

-- A message or a command that one node publishes is taken by another as it was: the message is
-- handed to the hub, with its offset and epoch, and the command is carried out. The encoder's text
-- must be read back as what was written, a message must name its stream, and a command's text is
-- read as a message that names no stream, and not as a batch.
pub published_is_taken :
    (dec : Decoder) (enc : Encoder) (channel : String) (m blank : StreamMessage)
    (c : RemoteCommandMessage)
    → dec.as_stream (enc.of_stream m) ≡ some m
    → (m.stream == "") ≡ false
    → dec.as_stream (enc.of_command c) ≡ some blank
    → (blank.stream == "") ≡ true
    → dec.as_batch (enc.of_command c) ≡ none
    → dec.as_command (enc.of_command c) ≡ some c
    → (map (λ p. handle_message dec p.1) (publish enc channel (Calls.broadcast m))
        ≡ some (deliver (some m) ∷ []) ∷ [])
      × (map (λ p. handle_message dec p.1) (publish enc channel (Calls.broadcast_command c))
          ≡ some (execute_remote_command dec c) ∷ [])
unfolding publish
published_is_taken dec enc channel m blank c back named other nameless no_batch command_back = (
  ap (λ r. r ∷ []) (taken_message dec (enc.of_stream m) m back named),
  ap (λ r. r ∷ [])
      (taken_command dec (enc.of_command c) c blank other nameless no_batch command_back),
)
