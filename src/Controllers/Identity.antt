-- ===== src/Controllers/Identity.antt =====
-- identity/: identifiers that answer connections without the application, one after the other, and
-- the identifier of JSON web tokens.
use anycable_go.Prelude.{
  Bool, Bool-cases, List, Option, Option-cases, String, [], ap, arith, false, if◌then◌else◌, inl,
  inr, none, refl, some, true, ℕ, ◌++◌, ◌==◌, ◌∙◌, ◌∷◌, ◌≡◌, string_eq, nat_eq,
}
use anycable_go.Prelude.Dict.{Dict, lookup}
use anycable_go.Common.Env.{SessionEnv}
use anycable_go.Common.Commands.{ConnectResult, success, failure, negsuc, pos}
use anycable_go.Controllers.{Answer, Controller, or_default}

-- Identify of an Identifier: no result and no error passes the connection on.
abbrev pub Identify : Type 0
Identify = String → SessionEnv → Answer ConnectResult

-- The loop of IdentifierPipeline.
unfoldable pub identify : List Identify → Identify
identify [] sid env = (none, false)
identify (i ∷ rest) sid env = or_default (i sid env) (identify rest sid env)

pub record IdentifiableController : Type 0 where
  pub controller : Controller
  pub identifier : Identify

abbrev pub cstate_or_empty : Option (Dict String String) → Option (Dict String String)
cstate_or_empty none = some []
cstate_or_empty (some m) = some m

-- What becomes of the identifier's answer; the controller's counts where the identifier passes.
unfoldable pub conclude : Answer ConnectResult → Answer ConnectResult → Answer ConnectResult
conclude (none, true) asked = (none, true)
conclude (some r, true) asked = (none, true)
conclude (none, false) asked = asked
conclude (some r, false) asked =
    (some (record r { cstate = cstate_or_empty r.cstate; disconnect_interest = negsuc 0 }), false)

unfoldable pub authenticate : IdentifiableController → String → SessionEnv → Answer ConnectResult
unfolding conclude
authenticate c sid env = conclude (c.identifier sid env) (c.controller.authenticate sid env)

-- All else goes to the controller behind it.
abbrev pub identifiable : IdentifiableController → Controller
identifiable c = record c.controller { authenticate = authenticate c }

-- What the library makes of a token: jwt.Parse with the secret, for HMAC only, and the claim `ext`
-- where it is a text.
pub data Token : Type 0 where
  expired invalid : Token
  valid : Option String → Token

-- NewJWTIdentifier, with the reading of the token and of a parameter of the URL, where `none` is a
-- URL that cannot be read and an empty text a parameter that is missing.
pub record JwtIdentifier : Type 0 where
  pub param_name : String
  pub header_name : String
  pub required : Bool
  pub parse : String → Token
  pub query : String → String → Option String

abbrev pub with_status : ℕ → String → ConnectResult
with_status status message = record {
  identifier = "";
  transmissions = message ∷ [];
  broadcasts = [];
  cstate = none;
  disconnect_interest = pos 0;
  status = status;
}

abbrev pub unauthorized_message : String
unauthorized_message = "{\"type\":\"disconnect\",\"reason\":\"unauthorized\",\"reconnect\":false}"

abbrev pub expired_message : String
expired_message = "{\"type\":\"disconnect\",\"reason\":\"token_expired\",\"reconnect\":false}"

abbrev pub unauthorized_response : ConnectResult
unauthorized_response = with_status failure unauthorized_message

abbrev pub expired_response : ConnectResult
expired_response = with_status failure expired_message

-- The token in the header, which is empty where it is missing.
abbrev pub header_token : JwtIdentifier → SessionEnv → String
header_token i env = elim env.headers [
  | none ↦ ""
  | some headers ↦ elim (lookup i.header_name headers) [ none ↦ "" | some v ↦ v ]
]

-- The header counts before the URL; `none` is an error.
unfoldable pub raw_token : JwtIdentifier → SessionEnv → Option String
raw_token i env =
    let found = header_token i env in
    if found == "" then i.query env.url i.param_name else some found

module _ (welcome : String → String) (i : JwtIdentifier) where
  unfoldable pub answer_token : String → Token → Answer ConnectResult
  answer_token sid expired = (some expired_response, false)
  answer_token sid invalid = (some unauthorized_response, false)
  answer_token sid (valid none) = (none, true)
  answer_token sid (valid (some ids)) =
      (some (record (with_status success (welcome sid)) { identifier = ids }), false)

  unfoldable pub identify_token : Identify
  unfolding raw_token answer_token
  identify_token sid env = elim (raw_token i env) [
    | none ↦ (none, true)
    | some raw ↦
        if raw == ""
        then if i.required then (some unauthorized_response, false) else (none, false)
        else answer_token sid (i.parse raw)
  ]

or_default_assoc :
    {X : Type 0} (a b c : Answer X) → or_default a (or_default b c) ≡ or_default (or_default a b) c
or_default_assoc (some r, failed) b c = refl
or_default_assoc (none, true) b c = refl
or_default_assoc (none, false) b c = refl

-- Identifiers in two groups, one after the other, answer as the second does where the first passes.
pub identify-append :
    (xs ys : List Identify) (sid : String) (env : SessionEnv)
    → identify (xs ++ ys) sid env ≡ or_default (identify xs sid env) (identify ys sid env)
unfolding identify
identify-append [] ys sid env = refl
identify-append (i ∷ xs) ys sid env =
    ap (or_default (i sid env)) (identify-append xs ys sid env)
    ∙ or_default_assoc (i sid env) (identify xs sid env) (identify ys sid env)

module _ (welcome : String → String) (i : JwtIdentifier) (c : Controller) where
  abbrev guarded : IdentifiableController
  guarded = record { controller = c; identifier = identify_token welcome i }

  concluded :
      (sid : String) (t : Token) (asked : Answer ConnectResult) (res : ConnectResult)
      → conclude (answer_token welcome i sid t) asked ≡ (some res, false)
      → res.status ≡ success
      → (ids : String) × (t ≡ valid (some ids)) × (res.identifier ≡ ids)
  unfolding conclude answer_token
  concluded sid expired asked res got good = absurd (ground (arith, got, good))
  concluded sid invalid asked res got good = absurd (ground (arith, got, good))
  concluded sid (valid none) asked res got good = absurd (ground (arith, got))
  concluded sid (valid (some ids)) asked res got good = (ids, refl, ground (arith, got))

  -- Where tokens are required, a connection is authenticated with success only by a token that is
  -- valid and names identifiers, which are the session's; whatever the application behind would say.
  pub authenticate_required :
      (sid : String) (env : SessionEnv) (res : ConnectResult)
      → i.required ≡ true
      → authenticate guarded sid env ≡ (some res, false)
      → res.status ≡ success
      → (raw ids : String) × (raw_token i env ≡ some raw)
        × (i.parse raw ≡ valid (some ids))
        × (res.identifier ≡ ids)
  unfolding authenticate identify_token
  authenticate_required sid env res required got good = elim (Option-cases (raw_token i env)) [
    | inl unread ↦ absurd (ground (arith, unread, got))
    | inr (raw, at) ↦ elim (Bool-cases (raw == "")) [
      | inl missing ↦ absurd (ground (arith, at, missing, required, got, good))
      | inr there ↦
          let (ids, parsed, named) =
            concluded sid (i.parse raw) (c.authenticate sid env) res
              (ground (arith, at, there, got)) good in
          (raw, ids, at, parsed, named)
    ]
  ]
