-- ===== src/Rpc/Controller/Agrees.antt =====
-- What a node makes of the answers of the RPC controller of rpc/rpc.go.
use anycable_go.Prelude.{
  Bool, Option, String, [], arith, false, if◌then◌else◌, none, refl, some, true, ◌==◌, ◌≡◌, ◌≢◌,
  string_eq, nat_eq,
}
use anycable_go.Prelude.Dict.{Dict, lookup}
use anycable_go.Common.Env.{SessionEnv}
use anycable_go.Common.Commands.{CommandResult, error}
use anycable_go.Node.Commands.{is_failed}
use anycable_go.Protocol.{
  Env, CommandMessage, CommandResponse, Status, parse_command_response, new_command_message,
  build_channel_env, build_env, error_status, success_status, failure_status, unknown_status,
  is_error, status_of,
}
use anycable_go.Rpc.Retry.{Ending, retry, returned, failed, out_of_fuel}
use anycable_go.Rpc.Retry.Bounds.{retry-IsBounded}
use anycable_go.Rpc.Controller.{Client, Outcome, read, call_command}

-- Whether the error is not nil.
abbrev pub has_error : Option String → Bool
has_error none = false
has_error (some e) = true

-- `err != nil` says the same as `res == nil || res.Status == common.ERROR`.
abbrev pub Agrees : Outcome CommandResult → Type 0
Agrees (res, e) = has_error e ≡ is_failed res

status-agrees :
    (s : Status) (msg : String)
    → has_error (if is_error s then some msg else none) ≡ (status_of s == error)
status-agrees error_status msg = refl
status-agrees success_status msg = refl
status-agrees failure_status msg = refl
status-agrees unknown_status msg = refl

read-Agrees :
    (ending : Ending CommandResponse String)
    → ending ≢ out_of_fuel
    → Agrees (read parse_command_response ending)
unfolding read parse_command_response
read-Agrees (returned r) h = status-agrees r.status r.error_msg
read-Agrees (failed e) h = refl
read-Agrees out_of_fuel h = absurd (h refl)

new_command_message-known :
    (env : SessionEnv) (command channel identifiers body : String) (headers : Dict String String)
    → env.headers ≡ some headers
    → (msg : CommandMessage) × (new_command_message env command channel identifiers body ≡ some msg)
unfolding new_command_message build_channel_env build_env
new_command_message-known env command channel identifiers body headers known =
    let istate : Dict String String = elim (lookup channel env.channel_states) [
      | none ↦ []
      | some state ↦ state
    ] in
    let sent : Env = record {
      url = env.url;
      headers = headers;
      cstate = env.connection_state;
      istate = istate;
    } in
    let msg : CommandMessage = record {
      command = command;
      env = sent;
      identifier = channel;
      connection_identifiers = identifiers;
      body = body;
    } in
    (msg, ground (arith, known))

-- A command of a session whose headers are known is sent without a panic and is answered, and the
-- answer has an error exactly where its result is missing or has the status of an error: so the
-- node, which returns only where both hold, never goes on with an error, and never reads a result
-- that is missing.
pub call_command-Agrees :
    (client : Client) (command identifiers channel body : String) (env : SessionEnv)
    (headers : Dict String String)
    → env.headers ≡ some headers
    → (outcome : Outcome CommandResult) × (call_command client command env identifiers channel body
        ≡ some outcome)
      × Agrees outcome
unfolding call_command
call_command-Agrees client command identifiers channel body env headers known =
    let (msg, made) =
      new_command_message-known env command channel identifiers body headers known in
    let run : Ending CommandResponse String = (retry (client.command msg)).ending in
    (
      read parse_command_response run,
      rw (call_command, made) refl,
      read-Agrees run (retry-IsBounded (client.command msg)).0,
    )
