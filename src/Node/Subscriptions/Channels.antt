-- ===== src/Node/Subscriptions/Channels.antt =====
-- Which channels a session has after a change of node/subscription_state.go, and what ToMap keeps.
use anycable_go.Prelude.{
  ==_iff, Bool, Bool-cases, Option-cases, String, [], arith, contains, false, inl, inr, none, refl,
  some, true, ◌==◌, ◌||◌, ◌∷◌, ◌≡◌, string_eq, nat_eq,
}
use anycable_go.Prelude.Dict.{Dict, IsDict, lookup, lookup-put, put}
use anycable_go.Node.Subscriptions.{
  SubscriptionState, has_channel, add_channel, joined, add_channel_stream, keys, streams_of,
}

pub has_channel-after_add_channel :
    (id channel : String) (st : SubscriptionState)
    → has_channel channel (add_channel id st) ≡ (id == channel || has_channel channel st)
unfolding has_channel add_channel
has_channel-after_add_channel id channel st =
    ground (arith, lookup-put id channel [] st.channels, ==_iff id channel)

pub has_channel-after_add_channel_stream :
    (id channel name : String) (st : SubscriptionState)
    → has_channel channel (add_channel_stream id name st) ≡ has_channel channel st
unfolding has_channel add_channel_stream
has_channel-after_add_channel_stream id channel name st =
    elim (Option-cases (lookup id st.channels)) [
      | inl missing ↦ ground (arith, missing)
      | inr (streams, at) ↦ elim (Bool-cases (id == channel)) [
        | inl same ↦
            let one : id ≡ channel = (==_iff id channel).0 same in
            ground (arith, at, one, same, lookup-put id channel (put name true streams) st.channels)
        | inr apart ↦
            ground (arith, at, apart, lookup-put id channel (put name true streams) st.channels)
      ]
    ]

pub joined-missing :
    (id stream : String) (st : SubscriptionState)
    → has_channel id st ≡ false
    → joined id stream st ≡ false
unfolding joined has_channel
joined-missing id stream st h = ground (arith, h)

-- The streams of a channel as a list are those of the map.
pub contains-keys :
    (stream : String) (m : Dict String Bool)
    → contains stream (keys m) ≡ (elim (lookup stream m) [ none ↦ false | some b ↦ true ])
unfolding contains lookup
contains-keys stream [] = refl
contains-keys stream ((k, v) ∷ m) = ground (arith, contains-keys stream m)

pub lookup-streams_of :
    (id : String) (m : Dict String (Dict String Bool))
    → lookup id (streams_of m) ≡ (elim (lookup id m) [ none ↦ none | some v ↦ some (keys v) ])
unfolding lookup
lookup-streams_of id [] = refl
lookup-streams_of id ((k, v) ∷ m) = ground (arith, lookup-streams_of id m)

pub streams_of-IsDict : (m : Dict String (Dict String Bool)) → IsDict m → IsDict (streams_of m)
streams_of-IsDict [] d = tt
streams_of-IsDict ((k, v) ∷ m) d = (rw (lookup-streams_of k m, d.0) refl, streams_of-IsDict m d.1)
