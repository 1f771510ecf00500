-- ===== src/Controllers/Tests.antt =====
-- A route to the null controller, and tokens.
use anycable_go.Prelude.{String, [], false, none, refl, some, true, ◌∷◌, ◌≡◌, string_eq, nat_eq}
use anycable_go.Prelude.Dict.{lookup, put}
use anycable_go.Common.Env.{SessionEnv, new_session_env}
use anycable_go.Common.Commands.{ConnectResult, success, negsuc}
use anycable_go.Controllers.{Controller, null_controller}
use anycable_go.Controllers.Router.{RouterController, new_router_controller, route}
use anycable_go.Controllers.Identity.{
  JwtIdentifier, valid, identify_token, authenticate, raw_token, authenticate_required,
}

abbrev null : Controller
null = null_controller "denied" (λ channel. channel)

abbrev other : Controller
other = record null { perform = λ sid env ids channel body. (none, false) }

abbrev env : SessionEnv
env = new_session_env "/cable" (some (("x-jid", "token") ∷ []))

abbrev router : RouterController
router = record { controller = other; routes = ("chat", null) ∷ [] }

added : route "chat" null (new_router_controller other) ≡ some router
unfolding route lookup put
added = refl

abbrev tokens : JwtIdentifier
tokens = record {
  param_name = "jid";
  header_name = "x-jid";
  required = true;
  parse = λ raw. valid (some raw);
  query = λ url name. some "";
}

abbrev known : ConnectResult
known = record {
  identifier = "token";
  transmissions = "s1" ∷ [];
  broadcasts = [];
  cstate = some [];
  disconnect_interest = negsuc 0;
  status = success;
}

authenticate_required_example :
    (raw ids : String) × (raw_token tokens env ≡ some raw)
    × (tokens.parse raw ≡ valid (some ids))
    × (known.identifier ≡ ids)
unfolding authenticate identify_token lookup new_session_env
authenticate_required_example =
    authenticate_required (λ sid. sid) tokens null "s1" env known refl refl refl
