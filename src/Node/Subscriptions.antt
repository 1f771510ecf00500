-- ===== src/Node/Subscriptions.antt =====
-- node/subscription_state.go: the channels of a session, and the streams of each.
pub mod Channels
use anycable_go.Prelude.{
  ==_iff, Bool, List, Option-cases, String, [], arith, false, inl, inr, none, not, refl, some, true,
  ◌&&◌, ◌==◌, ◌||◌, ◌∷◌, ◌≡◌, string_eq, nat_eq,
}
use anycable_go.Prelude.Dict.{Dict, delete, lookup, lookup-delete, lookup-put, put}

pub record SubscriptionState : Type 0 where
  pub channels : Dict String (Dict String Bool)

abbrev pub new_subscription_state : SubscriptionState
new_subscription_state = record { channels = [] }

unfoldable pub has_channel : String → SubscriptionState → Bool
has_channel id st = elim (lookup id st.channels) [ none ↦ false | some streams ↦ true ]

unfoldable pub add_channel : String → SubscriptionState → SubscriptionState
add_channel id st = record { channels = put id [] st.channels }

pub remove_channel : String → SubscriptionState → SubscriptionState
remove_channel id st = record { channels = delete id st.channels }

-- The keys of a map, in an order that Go leaves open.
abbrev pub keys {ℓ} : {V : Type ℓ} → Dict String V → List String
keys [] = []
keys ((k, v) ∷ m) = k ∷ keys m

pub channels : SubscriptionState → List String
channels st = keys st.channels

abbrev pub streams_of : Dict String (Dict String Bool) → Dict String (List String)
streams_of [] = []
streams_of ((k, v) ∷ m) = (k, keys v) ∷ streams_of m

unfoldable pub to_map : SubscriptionState → Dict String (List String)
to_map st = streams_of st.channels

unfoldable pub add_channel_stream : String → String → SubscriptionState → SubscriptionState
add_channel_stream id stream st = elim (lookup id st.channels) [
  | none ↦ st
  | some streams ↦ record { channels = put id (put stream true streams) st.channels }
]

pub remove_channel_stream : String → String → SubscriptionState → SubscriptionState
remove_channel_stream id stream st = elim (lookup id st.channels) [
  | none ↦ st
  | some streams ↦ record { channels = put id (delete stream streams) st.channels }
]

-- A nil slice is an empty one to the callers.
pub streams_for : String → SubscriptionState → List String
streams_for id st = elim (lookup id st.channels) [ none ↦ [] | some streams ↦ keys streams ]

pub remove_channel_streams : String → SubscriptionState → List String × SubscriptionState
remove_channel_streams id st = elim (lookup id st.channels) [
  | none ↦ ([], st)
  | some streams ↦ (keys streams, record { channels = put id [] st.channels })
]

-- The session has the stream in the channel.
unfoldable pub joined : String → String → SubscriptionState → Bool
joined id stream st = elim (lookup id st.channels) [
  | none ↦ false
  | some streams ↦ elim (lookup stream streams) [ none ↦ false | some b ↦ true ]
]

module _ (id : String) (st : SubscriptionState) (channel stream : String) where
  pub joined-add_channel :
      has_channel id st ≡ false
      → joined channel stream (add_channel id st) ≡ joined channel stream st
  unfolding joined add_channel has_channel lookup
  joined-add_channel new = ground (arith, lookup-put id channel [] st.channels, ==_iff id channel)

  pub joined-remove_channel :
      joined channel stream (remove_channel id st)
      ≡ (joined channel stream st && not (id == channel))
  unfolding joined remove_channel
  joined-remove_channel = ground (arith, lookup-delete id channel st.channels, ==_iff id channel)

  pub joined-add_channel_stream :
      (name : String)
      → joined channel stream (add_channel_stream id name st)
        ≡ ((has_channel id st && id == channel && name == stream) || joined channel stream st)
  unfolding joined add_channel_stream has_channel
  joined-add_channel_stream name = elim (Option-cases (lookup id st.channels)) [
    | inl missing ↦ ground (arith, missing)
    | inr (streams, at) ↦ ground (
      arith,
      at,
      lookup-put id channel (put name true streams) st.channels,
      lookup-put name stream true streams,
      ==_iff id channel,
    )
  ]

  pub joined-remove_channel_stream :
      (name : String)
      → joined channel stream (remove_channel_stream id name st)
        ≡ (joined channel stream st && not (id == channel && name == stream))
  unfolding joined remove_channel_stream
  joined-remove_channel_stream name = elim (Option-cases (lookup id st.channels)) [
    | inl missing ↦ ground (arith, missing, ==_iff id channel)
    | inr (streams, at) ↦ ground (
      arith,
      at,
      lookup-put id channel (delete name streams) st.channels,
      lookup-delete name stream streams,
      ==_iff id channel,
    )
  ]

  pub joined-remove_channel_streams :
      joined channel stream (remove_channel_streams id st).1
      ≡ (joined channel stream st && not (id == channel))
  unfolding joined remove_channel_streams lookup
  joined-remove_channel_streams = elim (Option-cases (lookup id st.channels)) [
    | inl missing ↦ ground (arith, missing, ==_iff id channel)
    | inr (streams, at) ↦
        ground (arith, at, lookup-put id channel [] st.channels, ==_iff id channel)
  ]

pub has_channel-add_channel_stream :
    (id name : String) (st : SubscriptionState)
    → has_channel id (add_channel_stream id name st) ≡ has_channel id st
unfolding has_channel add_channel_stream
has_channel-add_channel_stream id name st = elim (Option-cases (lookup id st.channels)) [
  | inl missing ↦ ground (arith, missing)
  | inr (streams, at) ↦
      ground (arith, at, lookup-put id id (put name true streams) st.channels, ==_iff id id)
]

pub has_channel-remove_channel_stream :
    (id name : String) (st : SubscriptionState)
    → has_channel id (remove_channel_stream id name st) ≡ has_channel id st
unfolding has_channel remove_channel_stream
has_channel-remove_channel_stream id name st = elim (Option-cases (lookup id st.channels)) [
  | inl missing ↦ ground (arith, missing)
  | inr (streams, at) ↦
      ground (arith, at, lookup-put id id (delete name streams) st.channels, ==_iff id id)
]

pub has_channel-remove_channel_streams :
    (id : String) (st : SubscriptionState)
    → has_channel id (remove_channel_streams id st).1 ≡ has_channel id st
unfolding has_channel remove_channel_streams
has_channel-remove_channel_streams id st = elim (Option-cases (lookup id st.channels)) [
  | inl missing ↦ ground (arith, missing)
  | inr (streams, at) ↦ ground (arith, at, lookup-put id id [] st.channels, ==_iff id id)
]

pub has_channel-add_channel :
    (id : String) (st : SubscriptionState) → has_channel id (add_channel id st) ≡ true
unfolding has_channel add_channel
has_channel-add_channel id st = ground (arith, lookup-put id id [] st.channels, ==_iff id id)

pub has_channel-remove_channel :
    (id : String) (st : SubscriptionState) → has_channel id (remove_channel id st) ≡ false
unfolding has_channel remove_channel
has_channel-remove_channel id st = ground (arith, lookup-delete id id st.channels, ==_iff id id)

-- Of a channel that is not there no stream can be added or removed.
module _ (id : String) (st : SubscriptionState) (gone : has_channel id st ≡ false) where
  pub add_channel_stream-missing : (name : String) → add_channel_stream id name st ≡ st
  unfolding add_channel_stream has_channel
  add_channel_stream-missing name = elim (Option-cases (lookup id st.channels)) [
    | inl missing ↦ rw (add_channel_stream, missing) refl
    | inr (streams, at) ↦ ground (arith, at, gone)
  ]

  pub remove_channel_stream-missing : (name : String) → remove_channel_stream id name st ≡ st
  unfolding remove_channel_stream has_channel
  remove_channel_stream-missing name = elim (Option-cases (lookup id st.channels)) [
    | inl missing ↦ rw (remove_channel_stream, missing) refl
    | inr (streams, at) ↦ ground (arith, at, gone)
  ]

  pub remove_channel_streams-missing : remove_channel_streams id st ≡ ([], st)
  unfolding remove_channel_streams has_channel
  remove_channel_streams-missing = elim (Option-cases (lookup id st.channels)) [
    | inl missing ↦ rw (remove_channel_streams, missing) refl
    | inr (streams, at) ↦ ground (arith, at, gone)
  ]
