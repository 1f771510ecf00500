-- ===== src/Node/Lifecycle/Resubscribed.antt =====
-- The loops of TryRestoreSession in node/node.go, and what the hub knows after them.
use anycable_go.Prelude.{
  ==_iff, Bool, List, String, [], arith, contains, refl, ◌&&◌, ◌++◌, ◌==◌, ◌||◌, ◌∙◌, ◌∷◌, ◌≡◌,
  string_eq, nat_eq,
}
use anycable_go.Prelude.Dict.{Dict, IsDict, lookup}
use anycable_go.Node.Lifecycle.{
  Greeting, resubscribe, resubscribe_all, broker_subscribe, hub_subscribe,
}
use anycable_go.Node.Subscriptions.{joined, keys}
use anycable_go.Node.Subscriptions.Channels.{contains-keys}
use anycable_go.Node.Replies.Mirror.{after_effects, after_effects-append, after_effect}
use anycable_go.Node.Steps.{Session, Effect, done, for_each, and_then, behind, ◌>>◌}

module _ {A M : Type 0} (g : Greeting A M) where
  pub calls : String → List String → List (Effect A M)
  calls identifier [] = []
  calls identifier (stream ∷ streams) =
      broker_subscribe stream
      ∷ hub_subscribe (g.world.stream_id stream) identifier
      ∷ calls identifier streams

  pub all_calls : Dict String (Dict String Bool) → List (Effect A M)
  all_calls [] = []
  all_calls ((k, v) ∷ m) = calls k (keys v) ++ all_calls m

  resubscribe-done :
      (identifier : String) (streams : List String) (s : Session)
      → resubscribe g identifier streams s ≡ done tt s (calls identifier streams)
  unfolding resubscribe calls
  resubscribe-done identifier [] s = refl
  resubscribe-done identifier (stream ∷ streams) s =
      rw (resubscribe, for_each, ◌>>◌, and_then, behind, resubscribe-done identifier streams s) refl

  pub resubscribe_all-done :
      (m : Dict String (Dict String Bool)) (s : Session)
      → resubscribe_all g m s ≡ done tt s (all_calls m)
  unfolding resubscribe_all all_calls
  resubscribe_all-done [] s = refl
  resubscribe_all-done ((k, v) ∷ m) s =
      rw (for_each, ◌>>◌, and_then, behind, resubscribe-done k (keys v) s, resubscribe_all-done m s)
        refl

  module _ (names : (stream : String) → g.world.stream_id stream ≡ stream) where
    after-calls :
        (identifier : String) (streams : List String) (channel stream : String) (on : Bool)
        → after_effects (calls identifier streams) channel stream on
          ≡ ((identifier == channel && contains stream streams) || on)
    unfolding calls after_effects contains
    after-calls identifier [] channel stream on = ground arith
    after-calls identifier (x ∷ xs) channel stream on =
        after-calls identifier xs channel stream (
          after_effect {A = A} {M = M} (hub_subscribe (g.world.stream_id x) identifier) channel
            stream on)
        ∙ ground (arith, names x)

    pub after-all_calls :
        (m : Dict String (Dict String Bool)) (channel stream : String) (on : Bool)
        → IsDict m
        → after_effects (all_calls m) channel stream on
          ≡ (joined channel stream (record { channels = m }) || on)
    unfolding all_calls after_effects joined lookup
    after-all_calls [] channel stream on d = refl
    after-all_calls ((k, v) ∷ m) channel stream on d =
        after_effects-append (calls k (keys v)) (all_calls m) channel stream on
        ∙ after-all_calls m channel stream (after_effects (calls k (keys v)) channel stream on) d.1
        ∙ ground (
          arith,
          d,
          after-calls k (keys v) channel stream on,
          contains-keys stream v,
          ==_iff k channel,
        )
