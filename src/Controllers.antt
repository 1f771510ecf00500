-- ===== src/Controllers.antt =====
-- The interface of a controller in node/controller.go, and the controllers that wrap another one.
pub mod Router
pub mod Identity
mod Tests
use anycable_go.Prelude.{Bool, List, Option, String, [], false, none, some, true, ◌∷◌}
use anycable_go.Common.Env.{SessionEnv}
use anycable_go.Common.Commands.{CommandResult, ConnectResult, failure, negsuc}

-- A result, which may be nil, and whether there is an error.
abbrev pub Answer : Type 0 → Type 0
Answer X = Option X × Bool

-- The arguments are the session's ID, its environment, its identifiers and the channel.
pub record Controller : Type 0 where
  pub authenticate : String → SessionEnv → Answer ConnectResult
  pub subscribe : String → SessionEnv → String → String → Answer CommandResult
  pub unsubscribe : String → SessionEnv → String → String → Answer CommandResult
  pub perform : String → SessionEnv → String → String → String → Answer CommandResult
  -- Whether there is an error.
  pub disconnect : String → SessionEnv → String → List String → Bool

-- `if res != nil || err != nil { return res, err }`, or else what comes next.
abbrev pub or_default : {X : Type 0} → Answer X → Answer X → Answer X
or_default (some res, failed) rest = (some res, failed)
or_default (none, true) rest = (none, true)
or_default (none, false) rest = rest

-- NullController of node/controller.go, with the texts of its two messages.
abbrev pub null_controller : String → (String → String) → Controller
null_controller denied rejected = record {
  authenticate = λ sid env. (
    some (record {
      identifier = "";
      transmissions = denied ∷ [];
      broadcasts = [];
      cstate = none;
      disconnect_interest = negsuc 0;
      status = failure;
    }),
    false,
  );
  subscribe = λ sid env ids channel. (
    some (record {
      stop_all_streams = false;
      disconnect = false;
      streams = none;
      stopped_streams = none;
      transmissions = rejected channel ∷ [];
      broadcasts = [];
      cstate = none;
      istate = none;
      disconnect_interest = negsuc 0;
      status = failure;
    }),
    false,
  );
  unsubscribe = λ sid env ids channel. (none, true);
  perform = λ sid env ids channel body. (none, true);
  disconnect = λ sid env ids subscriptions. false;
}
