-- ===== src/Node/Lifecycle/Tests.antt =====
-- A session that was cached, its restoration on another connection, and one that is refused.
use anycable_go.Prelude.{
  List, String, [], false, none, refl, some, true, ◌||◌, ◌∷◌, ◌≡◌, string_eq, nat_eq,
}
use anycable_go.Prelude.Dict.{lookup}
use anycable_go.Common.Env.{new_session_env}
use anycable_go.Common.Commands.{ConnectResult, failure, pos}
use anycable_go.Node.Subscriptions.{joined}
use anycable_go.Node.Cache.{Codec, entry_of, to_cache_entry, restore_from_cache}
use anycable_go.Node.Cache.RoundTrip.{IsStored, IsFresh, Resumes, restore_from_cache-to_cache_entry}
use anycable_go.Node.Commands.{World}
use anycable_go.Node.Lifecycle.{Greeting, authenticate, try_restore_session}
use anycable_go.Node.Lifecycle.Admission.{IsGreeted, authenticate_admits}
use anycable_go.Node.Lifecycle.Resumed.{try_restore_session-Resumes}
use anycable_go.Node.Replies.Mirror.{after_effects}
use anycable_go.Node.Steps.{Session, Effect, done, hub_add_session}

abbrev world : World String String
world = record {
  controller_subscribe = λ sid env ids channel. (none, true);
  controller_unsubscribe = λ sid env ids channel. (none, true);
  controller_perform = λ sid env ids channel body. (none, true);
  stream_id = λ stream. stream;
  history_from = λ stream epoch offset. none;
  history_since = λ stream since. none;
  presence_add = λ stream sid id info. (none, false);
  presence_remove = λ stream sid. (none, false);
  presence_info = λ stream. none;
  event_to_json = λ event. "";
  data_to_json = λ body. "";
  json = record { decode = λ body. none; text = λ body. body };
  disconnect_mode = "auto";
}

-- Two channels, one with two streams, and states of the connection and of a channel.
abbrev before : Session
before = record {
  uid = "s1";
  env = record (new_session_env "/cable" none) {
    identifiers = "u1";
    connection_state = ("user", "7") ∷ [];
    channel_states = ("room", ("$p", "members") ∷ []) ∷ [];
  };
  subscriptions = record {
    channels = ("room", ("news", true) ∷ ("chat", true) ∷ []) ∷ ("empty", []) ∷ [];
  };
  locked = false;
  resumable = true;
  disconnect_interest = true;
  connected = true;
  prev_sid = "";
}

abbrev fresh : Session
fresh = record {
  uid = "s2";
  env = new_session_env "/cable" none;
  subscriptions = record { channels = [] };
  locked = false;
  resumable = true;
  disconnect_interest = false;
  connected = false;
  prev_sid = "s1";
}

-- A codec that knows one text.
abbrev codec : Codec
codec = record { encode = λ entry. "cached"; decode = λ text. some (entry_of before) }

abbrev denied : ConnectResult
denied = record {
  identifier = "";
  transmissions = "denied" ∷ [];
  broadcasts = [];
  cstate = none;
  disconnect_interest = pos 0;
  status = failure;
}

abbrev greeting : Greeting String String
greeting = record {
  world = world;
  codec = codec;
  restore_session = λ sid. some (some "cached");
  controller_authenticate = λ sid env. (some denied, false);
}

before-IsStored : IsStored before
unfolding new_session_env lookup
before-IsStored = record {
  connection = (refl, tt);
  states = (refl, tt);
  state = ((refl, tt), tt);
  channels = (refl, (refl, tt));
}

fresh-IsFresh : IsFresh fresh
unfolding new_session_env
fresh-IsFresh = record { free = refl; no_connection = refl; no_states = refl; no_channels = refl }

restore_from_cache-to_cache_entry_example :
    (cached : String) × (s' t : Session) × (to_cache_entry {A = String} {M = String} codec before
      ≡ done cached s' [])
    × (restore_from_cache {A = String} {M = String} codec cached fresh ≡ done true t [])
    × (t.locked ≡ false)
    × Resumes before t
    × (t.disconnect_interest ≡ (fresh.disconnect_interest || before.disconnect_interest))
restore_from_cache-to_cache_entry_example =
    restore_from_cache-to_cache_entry before fresh before-IsStored fresh-IsFresh String String codec
      refl refl

try_restore_session-Resumes_example :
    (t : Session) × (es : List (Effect String String)) × (try_restore_session greeting fresh
      ≡ done true t (hub_add_session ∷ es))
    × (t.connected ≡ true)
    × (t.locked ≡ false)
    × Resumes before t
    × ((channel stream : String)
        → after_effects es channel stream false ≡ joined channel stream before.subscriptions)
try_restore_session-Resumes_example =
    try_restore_session-Resumes greeting before fresh before-IsStored fresh-IsFresh (λ stream. refl)
      "cached" refl refl refl

authenticate_admits_example :
    (t : Session) × (es : List (Effect String String)) × (authenticate greeting true
        (record fresh { prev_sid = "" })
      ≡ done (some denied) t es)
    × IsGreeted greeting true denied (record fresh { prev_sid = "" }) es t
authenticate_admits_example =
    authenticate_admits greeting true denied (record fresh { prev_sid = "" }) refl refl refl
