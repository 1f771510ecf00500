-- ===== src/Node/Tests.antt =====
-- The commands of a client at concrete inputs: a controller that fails, a result with streams, and
-- an unsubscription.
use anycable_go.Prelude.{
  Bool, List, String, [], err, false, none, ok, refl, some, true, ◌∷◌, ◌≡◌, string_eq, nat_eq,
}
use anycable_go.Prelude.Dict.{lookup}
use anycable_go.Node.Commands.Confirm.{subscribe_confirms}
use anycable_go.Node.Commands.Release.{releases, unsubscribe_keeps_streams}
use anycable_go.Node.Commands.Locks.{takes_lock, subscribe_failed_waits}
use anycable_go.Node.Replies.Spared.{channels_dropped}
use anycable_go.Node.Replies.Mirror.{after_effects, handle_command_reply-Mirrors}
use anycable_go.Common.Commands.{CommandResult, Message, error, success, pos, no_data}
use anycable_go.Common.Env.{new_session_env}
use anycable_go.Node.Subscriptions.{has_channel, joined}
use anycable_go.Node.Steps.{Session, Effect, done, waits}
use anycable_go.Node.Replies.{handle_command_reply}
use anycable_go.Node.Commands
use anycable_go.Node.Commands.{World, handle_command, controller_failed, Answer}

-- Two streams start, and one that was there stops.
abbrev reply : CommandResult
reply = record {
  stop_all_streams = false;
  disconnect = false;
  streams = some ("news" ∷ "chat" ∷ []);
  stopped_streams = some ("old" ∷ []);
  transmissions = "ok" ∷ [];
  broadcasts = [];
  cstate = none;
  istate = some (("user", "7") ∷ []);
  disconnect_interest = pos 0;
  status = success;
}

abbrev world : World String String
world = record {
  controller_subscribe = λ sid env ids channel. (some (record reply { status = error }), true);
  controller_unsubscribe = λ sid env ids channel. (some reply, false);
  controller_perform = λ sid env ids channel body. (none, false);
  stream_id = λ stream. stream;
  history_from = λ stream epoch offset. none;
  history_since = λ stream since. none;
  presence_add = λ stream sid pid info. (none, false);
  presence_remove = λ stream sid. (none, false);
  presence_info = λ stream. none;
  event_to_json = λ e. e.id;
  data_to_json = λ d. "";
  json = record { decode = λ text. none; text = λ text. text };
  disconnect_mode = "auto";
}

abbrev session : Session
session = record {
  uid = "s1";
  env = new_session_env "/cable" none;
  subscriptions = record { channels = ("room", ("old", true) ∷ ("more", true) ∷ []) ∷ [] };
  locked = false;
  resumable = true;
  disconnect_interest = false;
  connected = true;
  prev_sid = "";
}

abbrev message : Message String
message = record {
  command = "subscribe";
  identifier = "lobby";
  body = no_data;
  history = record { since = 0; streams = none };
  presence = none;
}

abbrev leaving : Message String
leaving = record message { command = "unsubscribe"; identifier = "room" }

room-known : has_channel "room" session.subscriptions ≡ true
unfolding has_channel lookup
room-known = refl

lobby-new : has_channel "lobby" session.subscriptions ≡ false
unfolding has_channel lookup
lobby-new = refl

handle_command_reply-Mirrors_example :
    (dirty : Bool) × (t : Session) × (es : List (Effect String String)) × (handle_command_reply
        world.stream_id "room" reply session
      ≡ done dirty t es)
    × (t.locked ≡ false)
    × (has_channel "room" t.subscriptions ≡ true)
    × (channels_dropped es ≡ 0)
    × ((channel stream : String)
        → joined channel stream t.subscriptions
          ≡ after_effects es channel stream (joined channel stream session.subscriptions))
handle_command_reply-Mirrors_example =
    handle_command_reply-Mirrors String String "room" world.stream_id reply session refl refl
      room-known

subscribe_failed_waits_example :
    (Commands.subscribe world message session
      ≡ done (err controller_failed) (record session { locked = true }) [])
    × ((later : World String String) (next : Message String)
        → takes_lock next.command ≡ true
        → handle_command later next (record session { locked = true }) ≡ waits)
subscribe_failed_waits_example =
    subscribe_failed_waits world message session (some (record reply { status = error })) refl
      lobby-new refl refl

unsubscribe_keeps_streams_example :
    (answer : Answer) × (t : Session) × (es : List (Effect String String)) × (Commands.unsubscribe
        world leaving session
      ≡ done answer t es)
    × (t.locked ≡ false)
    × (has_channel "room" t.subscriptions ≡ false)
    × (releases es ≡ 0)
unsubscribe_keeps_streams_example =
    unsubscribe_keeps_streams world leaving session reply refl room-known refl

abbrev willing : World String String
willing = record world { controller_subscribe = λ sid env ids channel. (some reply, false) }

subscribe_confirms_example :
    (t : Session) × (es : List (Effect String String)) × (Commands.subscribe willing message session
      ≡ done (ok (some reply)) t es)
    × (t.locked ≡ false)
    × (has_channel "lobby" t.subscriptions ≡ true)
    × ((channel stream : String)
        → joined channel stream t.subscriptions
          ≡ after_effects es channel stream (joined channel stream session.subscriptions))
subscribe_confirms_example =
    subscribe_confirms willing message session reply refl lobby-new refl refl
