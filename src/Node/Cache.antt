-- ===== src/Node/Cache.antt =====
-- The cached state of a session in node/session.go: cacheEntry, ToCacheEntry and RestoreFromCache.
pub mod Restored
pub mod RoundTrip
use anycable_go.Prelude.{Bool, List, Option, String, [], false, none, some, true, ◌||◌, ◌∷◌}
use anycable_go.Prelude.Dict.{Dict}
use anycable_go.Common.Env.{SessionEnv, merge_connection_state, merge_channel_state}
use anycable_go.Node.Subscriptions.{SubscriptionState, to_map, add_channel, add_channel_stream}
use anycable_go.Node.Steps.{Op, Session, ◌>>=◌, ◌>>◌, give, get, modify, lock, unlock}

pub record CacheEntry : Type 0 where
  pub identifiers : String
  pub subscriptions : Dict String (List String)
  pub connection_state : Dict String String
  pub channels_state : Dict String (Dict String String)
  pub disconnectable : Bool

-- json.Marshal and json.Unmarshal at this type; `none` is an error.
pub record Codec : Type 0 where
  pub encode : CacheEntry → String
  pub decode : String → Option CacheEntry

abbrev pub entry_of : Session → CacheEntry
entry_of s = record {
  identifiers = s.env.identifiers;
  subscriptions = to_map s.subscriptions;
  connection_state = s.env.connection_state;
  channels_state = s.env.channel_states;
  disconnectable = s.disconnect_interest;
}

-- The loops of RestoreFromCache.
pub merge_channels : Dict String (Dict String String) → SessionEnv → SessionEnv
merge_channels [] env = env
merge_channels ((k, v) ∷ m) env = merge_channels m (merge_channel_state k v env)

pub add_streams : String → List String → SubscriptionState → SubscriptionState
add_streams id [] st = st
add_streams id (stream ∷ streams) st = add_streams id streams (add_channel_stream id stream st)

pub add_channels : Dict String (List String) → SubscriptionState → SubscriptionState
add_channels [] st = st
add_channels ((k, v) ∷ m) st = add_channels m (add_streams k v (add_channel k st))

abbrev pub restored : CacheEntry → Session → Session
restored entry s = record s {
  disconnect_interest = s.disconnect_interest || entry.disconnectable;
  env = merge_channels entry.channels_state (
      merge_connection_state entry.connection_state
        (record s.env { identifiers = entry.identifiers }));
  subscriptions = add_channels entry.subscriptions s.subscriptions;
}

module _ {A M : Type 0} (codec : Codec) where
  unfoldable pub to_cache_entry : Op A M String
  to_cache_entry = do lock; s ← get; unlock; give (codec.encode (entry_of s))

  -- Whether the cached text could be read.
  unfoldable pub restore_from_cache : String → Op A M Bool
  restore_from_cache cached = elim (codec.decode cached) [
    | none ↦ give false
    | some entry ↦ (do lock; modify (restored entry); unlock; give true)
  ]
