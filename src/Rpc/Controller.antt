-- ===== src/Rpc/Controller.antt =====
-- The controller of rpc/rpc.go: each command of a session is a message that is sent until it is
-- answered, and the answer is read. The tickets of the barrier are in Rpc.Barrier.
pub mod Agrees
use anycable_go.Prelude.{List, Option, String, none, some}
use anycable_go.Prelude.Dict.{Dict}
use anycable_go.Common.Env.{SessionEnv}
use anycable_go.Common.Commands.{CommandResult, ConnectResult}
use anycable_go.Protocol.{
  Env, CommandMessage, CommandResponse, ConnectionResponse, DisconnectRequest, DisconnectResponse,
  new_connect_message, new_command_message, new_disconnect_message, parse_connect_response,
  parse_command_response, parse_disconnect_response,
}
use anycable_go.Rpc.Retry.{Wire, Ending, retry, returned, failed, out_of_fuel}

-- The client of the service, by what comes back in each round, and the JSON of a channel's state. An
-- error is a text.
pub record Client : Type 0 where
  pub connect : Env → Wire ConnectionResponse String
  pub command : CommandMessage → Wire CommandResponse String
  pub disconnect : DisconnectRequest → Wire DisconnectResponse String
  pub encode : Dict String String → String

-- A result, which may be nil, and an error, which may be nil.
abbrev pub Outcome : Type 0 → Type 0
Outcome X = Option X × Option String

abbrev pub parsed : {X : Type 0} → X × Option String → Outcome X
parsed (res, e) = (some res, e)

-- What a command makes of the end of its calls.
unfoldable pub read : {R X : Type 0} → (R → X × Option String) → Ending R String → Outcome X
read parse (returned r) = parsed (parse r)
read parse (failed e) = (none, some e)
read parse out_of_fuel = (none, none)

module _ (client : Client) where
  -- `none` is a panic.
  unfoldable pub authenticate : SessionEnv → Option (Outcome ConnectResult)
  unfolding read
  authenticate env = elim (new_connect_message env) [
    | none ↦ none
    | some msg ↦ some (read parse_connect_response (retry (client.connect msg)).ending)
  ]

  unfoldable pub call_command :
      String → SessionEnv → String → String → String → Option (Outcome CommandResult)
  unfolding read
  call_command command env identifiers channel body =
      elim (new_command_message env command channel identifiers body) [
        | none ↦ none
        | some msg ↦ some (read parse_command_response (retry (client.command msg)).ending)
      ]

  unfoldable pub subscribe : SessionEnv → String → String → Option (Outcome CommandResult)
  unfolding call_command
  subscribe env identifiers channel = call_command "subscribe" env identifiers channel ""

  unfoldable pub unsubscribe : SessionEnv → String → String → Option (Outcome CommandResult)
  unfolding call_command
  unsubscribe env identifiers channel = call_command "unsubscribe" env identifiers channel ""

  unfoldable pub perform : SessionEnv → String → String → String → Option (Outcome CommandResult)
  unfolding call_command
  perform env identifiers channel body = call_command "message" env identifiers channel body

  -- The error, if there is one.
  unfoldable pub disconnect : SessionEnv → String → List String → Option (Option String)
  disconnect env identifiers subscriptions =
      elim (new_disconnect_message client.encode env identifiers subscriptions) [
        | none ↦ none
        | some msg ↦ some (elim (retry (client.disconnect msg)).ending [
          | returned r ↦ parse_disconnect_response r
          | failed e ↦ some e
          | out_of_fuel ↦ none
        ])
      ]
