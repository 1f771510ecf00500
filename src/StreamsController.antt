-- ===== src/StreamsController.antt =====
-- streams/controller.go: subscriptions to streams by name, without an application behind them.
pub mod Granted
mod Tests
use anycable_go.Prelude.{
  Bool, Option, Result, String, [], err, false, if◌then◌else◌, none, not, ok, panic, some, true,
  ◌&&◌, ◌==◌, ◌||◌, ◌∷◌, string_eq, nat_eq,
}
use anycable_go.Prelude.Dict.{Dict, put}
use anycable_go.Common.Commands.{CommandResult, success, failure, negsuc, pos}

pub record SubscribeRequest : Type 0 where
  pub stream_name : String
  pub signed_stream_name : String
  pub whisper : Bool
  pub presence : Bool

pub is_present : SubscribeRequest → Bool
is_present r = not (r.stream_name == "") || not (r.signed_stream_name == "")

-- What the message verifier says of a signed name: the payload may be JSON of any kind.
pub data Verified : Type 0 where
  invalid : Verified
  not_a_name : Verified
  name : String → Verified

-- `none` is the nil verifier of a controller without a key, which has no method to call.
pub record Controller : Type 0 where
  pub verifier : Option (String → Verified)
  -- `none` is an error.
  pub resolver : String → Option SubscribeRequest
  -- RejectionMessage and ConfirmationMessage of common/common.go, as JSON text.
  pub rejection_message : String → String
  pub confirmation_message : String → String

abbrev pub rejected : Controller → String → CommandResult
rejected c identifier = record {
  stop_all_streams = false;
  disconnect = false;
  streams = none;
  stopped_streams = none;
  transmissions = c.rejection_message identifier ∷ [];
  broadcasts = [];
  cstate = none;
  istate = none;
  disconnect_interest = pos 0;
  status = failure;
}

-- The names that the channel's state holds, nil where neither is wanted.
pub state_of : SubscribeRequest → String → Option (Dict String String)
state_of r stream =
    let state : Dict String String = if r.whisper then ("$w", stream) ∷ [] else [] in
    if r.presence then some (put "$p" stream state) else if r.whisper then some state else none

pub confirmed : Controller → String → SubscribeRequest → String → CommandResult
unfolding state_of
confirmed c identifier r stream = record {
  stop_all_streams = false;
  disconnect = false;
  streams = some (stream ∷ []);
  stopped_streams = none;
  transmissions = c.confirmation_message identifier ∷ [];
  broadcasts = [];
  cstate = none;
  istate = state_of r stream;
  disconnect_interest = negsuc 0;
  status = success;
}

-- A name that is not signed goes first.
pub stream_of : Controller → SubscribeRequest → Result String Verified
stream_of c r =
    if not (r.stream_name == "")
    then ok (name r.stream_name)
    else elim c.verifier [ none ↦ panic | some verify ↦ ok (verify r.signed_stream_name) ]

pub answer : Controller → String → SubscribeRequest → Verified → CommandResult
unfolding confirmed
answer c identifier r (name stream) = confirmed c identifier r stream
answer c identifier r invalid = rejected c identifier
answer c identifier r not_a_name = rejected c identifier

-- The result, and whether there is an error beside it.
pub subscribe : Controller → String → Result String (CommandResult × Bool)
unfolding is_present stream_of answer
subscribe c identifier = elim (c.resolver identifier) [
  | none ↦ ok (rejected c identifier, true)
  | some r ↦ if not (is_present r) then ok (rejected c identifier, true) else elim (stream_of c r) [
    | ok v ↦ ok (answer c identifier r v, false)
    | err e ↦ err e
    | panic ↦ panic
  ]
]

pub unsubscribe : String → CommandResult
unsubscribe identifier = record {
  stop_all_streams = true;
  disconnect = false;
  streams = some [];
  stopped_streams = none;
  transmissions = [];
  broadcasts = [];
  cstate = none;
  istate = none;
  disconnect_interest = pos 0;
  status = success;
}

pub record Config : Type 0 where
  pub secret : String
  pub public_streams : Bool
  pub whispers : Bool
  pub presences : Bool

-- The resolver of NewStreamsController. `unmarshal` reads the two names from the JSON identifier.
pub resolve : Config → (String → Option (String × String)) → String → Option SubscribeRequest
resolve conf unmarshal identifier = elim (unmarshal identifier) [
  | none ↦ none
  | some (plain, signed) ↦
      let open_stream = not (plain == "") in
      if not conf.public_streams && open_stream
      then none
      else some (record {
        stream_name = plain;
        signed_stream_name = signed;
        whisper = conf.whispers || open_stream;
        presence = conf.presences || open_stream;
      })
]

-- NewStreamsController; `verify` is the verifier for the key.
pub new_streams_controller :
    Config
    → (String → String → Verified)
    → (String → Option (String × String))
    → (String → String)
    → (String → String)
    → Controller
unfolding resolve
new_streams_controller conf verify unmarshal reject confirm = record {
  verifier = if conf.secret == "" then none else some (verify conf.secret);
  resolver = resolve conf unmarshal;
  rejection_message = reject;
  confirmation_message = confirm;
}

-- The resolver of NewTurboController and of NewCableReadyController, which read one signed name.
pub resolve_signed : (String → Option String) → String → Option SubscribeRequest
resolve_signed unmarshal identifier = elim (unmarshal identifier) [
  | none ↦ none
  | some signed ↦
      some (record {
        stream_name = "";
        signed_stream_name = signed;
        whisper = false;
        presence = false;
      })
]
