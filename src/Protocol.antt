-- ===== src/Protocol.antt =====
-- protocol/protocol.go: what is asked of an application over RPC, and how its answers are read. The
-- messages are those of protos/, which are generated.
use anycable_go.Prelude.{
  Bool, List, Option, String, [], false, if◌then◌else◌, none, some, true, ℕ, ◌∷◌, string_eq, nat_eq,
}
use anycable_go.Prelude.Dict.{Dict, lookup}
use anycable_go.Common.Env.{SessionEnv}
use anycable_go.Common.Commands.{CommandResult, ConnectResult, success, failure, error, pos}

-- The Status of a response; an unknown number has another name.
pub data Status : Type 0 where
  error_status success_status failure_status unknown_status : Status

-- An empty map of a message is nil.
pub record Env : Type 0 where
  pub url : String
  pub headers : Dict String String
  pub cstate : Dict String String
  pub istate : Dict String String

pub record CommandMessage : Type 0 where
  pub command : String
  pub env : Env
  pub identifier : String
  pub connection_identifiers : String
  pub body : String

pub record DisconnectRequest : Type 0 where
  pub identifiers : String
  pub subscriptions : List String
  pub env : Env

-- EnvResponse: the states are `none` where nil.
pub record EnvResponse : Type 0 where
  pub cstate : Option (Dict String String)
  pub istate : Option (Dict String String)

pub record ConnectionResponse : Type 0 where
  pub status : Status
  pub identifiers : String
  pub transmissions : List String
  pub error_msg : String
  pub env : Option EnvResponse

pub record CommandResponse : Type 0 where
  pub status : Status
  pub disconnect : Bool
  pub stop_streams : Bool
  pub streams : Option (List String)
  pub stopped_streams : Option (List String)
  pub transmissions : List String
  pub error_msg : String
  pub env : Option EnvResponse

pub record DisconnectResponse : Type 0 where
  pub status : Status
  pub error_msg : String

-- The headers are read through a pointer: `none` is a panic.
unfoldable pub build_env : SessionEnv → Option Env
build_env env = elim env.headers [
  | none ↦ none
  | some headers ↦
      some (record { url = env.url; headers = headers; cstate = env.connection_state; istate = [] })
]

-- The state of one channel.
unfoldable pub build_channel_env : String → SessionEnv → Option Env
unfolding build_env
build_channel_env id env = elim (build_env env) [
  | none ↦ none
  | some proto ↦ elim (lookup id env.channel_states) [
    | none ↦ some proto
    | some state ↦ some (record proto { istate = state })
  ]
]

-- The states of all channels, each as JSON.
abbrev pub encode_states :
    (Dict String String → String) → Dict String (Dict String String) → Dict String String
encode_states encode [] = []
encode_states encode ((id, state) ∷ m) = (id, encode state) ∷ encode_states encode m

unfoldable pub build_disconnect_env : (Dict String String → String) → SessionEnv → Option Env
unfolding build_env
build_disconnect_env encode env = elim (build_env env) [
  | none ↦ none
  | some proto ↦ some (record proto { istate = encode_states encode env.channel_states })
]

-- NewConnectMessage.
abbrev pub new_connect_message : SessionEnv → Option Env
new_connect_message = build_env

unfoldable pub new_command_message :
    SessionEnv → String → String → String → String → Option CommandMessage
unfolding build_channel_env
new_command_message env command channel identifiers body = elim (build_channel_env channel env) [
  | none ↦ none
  | some proto ↦ some (record {
    command = command;
    env = proto;
    identifier = channel;
    connection_identifiers = identifiers;
    body = body;
  })
]

unfoldable pub new_disconnect_message :
    (Dict String String → String) → SessionEnv → String → List String → Option DisconnectRequest
unfolding build_disconnect_env
new_disconnect_message encode env identifiers subscriptions =
    elim (build_disconnect_env encode env) [
      | none ↦ none
      | some proto ↦
          some (record { identifiers = identifiers; subscriptions = subscriptions; env = proto })
    ]

abbrev pub cstate_of : Option EnvResponse → Option (Dict String String)
cstate_of none = none
cstate_of (some env) = env.cstate

abbrev pub istate_of : Option EnvResponse → Option (Dict String String)
istate_of none = none
istate_of (some env) = env.istate

abbrev pub status_of : Status → ℕ
status_of success_status = success
status_of failure_status = failure
status_of error_status = error
status_of unknown_status = error

-- Whether there is an error beside the result.
abbrev pub is_error : Status → Bool
is_error success_status = false
is_error failure_status = false
is_error error_status = true
is_error unknown_status = true

-- The result, and the message of the application's error.
unfoldable pub parse_connect_response : ConnectionResponse → ConnectResult × Option String
parse_connect_response r =
    let reply : ConnectResult = record {
      identifier = elim r.status [
        | success_status ↦ r.identifiers
        | error_status ↦ ""
        | failure_status ↦ ""
        | unknown_status ↦ ""
      ];
      transmissions = r.transmissions;
      broadcasts = [];
      cstate = cstate_of r.env;
      disconnect_interest = pos 0;
      status = status_of r.status;
    } in
    (reply, if is_error r.status then some r.error_msg else none)

unfoldable pub parse_command_response : CommandResponse → CommandResult × Option String
parse_command_response r =
    let res : CommandResult = record {
      stop_all_streams = r.stop_streams;
      disconnect = r.disconnect;
      streams = r.streams;
      stopped_streams = r.stopped_streams;
      transmissions = r.transmissions;
      broadcasts = [];
      cstate = cstate_of r.env;
      istate = istate_of r.env;
      disconnect_interest = pos 0;
      status = status_of r.status;
    } in
    (res, if is_error r.status then some r.error_msg else none)

-- Here an unknown status is no error.
unfoldable pub parse_disconnect_response : DisconnectResponse → Option String
parse_disconnect_response r = elim r.status [
  | error_status ↦ some r.error_msg
  | success_status ↦ none
  | failure_status ↦ none
  | unknown_status ↦ none
]
