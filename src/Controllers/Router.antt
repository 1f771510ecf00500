-- ===== src/Controllers/Router.antt =====
-- router/router.go: channels that a controller of their own answers.
use anycable_go.Prelude.{
  ==_iff, Bool, Bool-cases, Option, Option-cases, String, [], ap, arith, false, if◌then◌else◌, inl,
  inr, is_empty, none, none-ne-some, refl, some, ◌==◌, ◌∙◌, ◌≡◌, string_eq, nat_eq,
}
use anycable_go.Prelude.Dict.{Dict, lookup, lookup-put, put}
use anycable_go.Common.Env.{SessionEnv}
use anycable_go.Common.Commands.{CommandResult}
use anycable_go.Controllers.{or_default, Answer, Controller}

pub record RouterController : Type 0 where
  pub controller : Controller
  pub routes : Dict String Controller

abbrev pub new_router_controller : Controller → RouterController
new_router_controller c = record { controller = c; routes = [] }

abbrev pub set_default : Controller → RouterController → RouterController
set_default c r = record r { controller = c }

-- `none` is the error of a route that is there already.
unfoldable pub route : String → Controller → RouterController → Option RouterController
route channel handler r = elim (lookup channel r.routes) [
  | some known ↦ none
  | none ↦ some (record r { routes = put channel handler r.routes })
]

abbrev pub is_router_empty : RouterController → Bool
is_router_empty r = is_empty r.routes

-- The name of the channel in an identifier is read from JSON, and is empty where this fails.
module _ (extract_channel : String → String) where
  -- The controller that a channel's identifier is first given to.
  unfoldable pub handler_for : String → RouterController → Option Controller
  handler_for channel r =
      let name = extract_channel channel in if name == "" then none else lookup name r.routes

  -- What Subscribe, Unsubscribe and Perform have in common.
  unfoldable pub ask : {X : Type 0} → RouterController → String → (Controller → Answer X) → Answer X
  ask r channel op = elim (handler_for channel r) [
    | none ↦ op r.controller
    | some handler ↦ or_default (op handler) (op r.controller)
  ]

  unfoldable pub subscribe :
      RouterController → String → SessionEnv → String → String → Answer CommandResult
  unfolding ask handler_for
  subscribe r sid env id channel = ask r channel (λ c. c.subscribe sid env id channel)

  unfoldable pub unsubscribe :
      RouterController → String → SessionEnv → String → String → Answer CommandResult
  unfolding ask handler_for
  unsubscribe r sid env id channel = ask r channel (λ c. c.unsubscribe sid env id channel)

  unfoldable pub perform :
      RouterController → String → SessionEnv → String → String → String → Answer CommandResult
  unfolding ask handler_for
  perform r sid env id channel body = ask r channel (λ c. c.perform sid env id channel body)

  -- A router is a controller: connections and disconnections go to the controller behind it.
  abbrev pub routed : RouterController → Controller
  routed r = record {
    authenticate = r.controller.authenticate;
    subscribe = subscribe r;
    unsubscribe = unsubscribe r;
    perform = perform r;
    disconnect = r.controller.disconnect;
  }

  module _ (name : String) (h : Controller) (r r' : RouterController)
      (added : route name h r ≡ some r') (named : (name == "") ≡ false) where
    routes-route : (r'.routes ≡ put name h r.routes) × (r'.controller ≡ r.controller)
    unfolding route
    routes-route = elim (Option-cases (lookup name r.routes)) [
      | inl new ↦ (ground (arith, new, added), ground (arith, new, added))
      | inr (known, at) ↦ absurd (none-ne-some (rw (route, at) at added))
    ]

    handler_for-route :
        (channel : String)
        → handler_for channel r'
          ≡ (if name == extract_channel channel then some h else handler_for channel r)
    unfolding handler_for
    handler_for-route channel =
        ap (λ m. let key = extract_channel channel in if key == "" then none else lookup key m)
          routes-route.0
        ∙ ground (
          arith,
          lookup-put name (extract_channel channel) h r.routes,
          ==_iff name (extract_channel channel),
          ==_iff name "",
          ==_iff (extract_channel channel) "",
          named,
        )

    ask-route :
        {X : Type 0} (channel : String) (op : Controller → Answer X)
        → ask r' channel op ≡ (
            if name == extract_channel channel
            then or_default (op h) (op r.controller)
            else ask r channel op)
    unfolding ask
    ask-route {X} channel op =
        let to : Controller → Option Controller → Answer X =
          λ c o. elim o [ none ↦ op c | some handler ↦ or_default (op handler) (op c) ] in
        ap (λ c. to c (handler_for channel r')) routes-route.1
        ∙ ap (to r.controller) (handler_for-route channel)
        ∙ elim (Bool-cases (name == extract_channel channel)) [
          | inl same ↦ rw same refl
          | inr apart ↦ rw apart refl
        ]

    -- Once a channel's name, which is not empty, has got a controller of its own, that controller is
    -- asked first about every identifier of that channel, and the controller behind the routes only
    -- where the first gives neither a result nor an error. All other identifiers are answered as
    -- before. It is so for subscriptions, unsubscriptions and actions alike.
    pub subscribe-route :
        (sid : String) (env : SessionEnv) (id channel body : String)
        → let other = r.controller in
          (subscribe r' sid env id channel ≡ (
            if name == extract_channel channel
            then or_default (h.subscribe sid env id channel) (other.subscribe sid env id channel)
            else subscribe r sid env id channel))
          × (unsubscribe r' sid env id channel ≡ (
              if name == extract_channel channel
              then or_default
                  (h.unsubscribe sid env id channel)
                  (other.unsubscribe sid env id channel)
              else unsubscribe r sid env id channel))
          × (perform r' sid env id channel body ≡ (
              if name == extract_channel channel
              then or_default
                  (h.perform sid env id channel body)
                  (other.perform sid env id channel body)
              else perform r sid env id channel body))
    unfolding subscribe unsubscribe perform
    subscribe-route sid env id channel body = (
      ask-route channel (λ c. c.subscribe sid env id channel),
      ask-route channel (λ c. c.unsubscribe sid env id channel),
      ask-route channel (λ c. c.perform sid env id channel body),
    )
