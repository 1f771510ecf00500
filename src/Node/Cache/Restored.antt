-- ===== src/Node/Cache/Restored.antt =====
-- What the loops of RestoreFromCache in node/session.go leave in a session that had no state.
use anycable_go.Prelude.{
  ==_iff, ==_refl, Bool-cases, List, Option-cases, String, [], arith, contains, false, inl, inr,
  none, none-ne-some, refl, some, sym, true, ◌&&◌, ◌==◌, ◌||◌, ◌∙◌, ◌∷◌, ◌≡◌, string_eq, nat_eq,
}
use anycable_go.Prelude.Dict.{Dict, IsDict, Values, lookup, put-IsDict}
use anycable_go.Common.Env.{
  SessionEnv, get_channel_state_field, get_connection_state_field, merge_channel_state, merged,
  get_channel_state_field-merge_channel_state,
}
use anycable_go.Node.Subscriptions.{
  SubscriptionState, joined, has_channel, add_channel, add_channel_stream,
  joined-add_channel_stream, joined-add_channel,
}
use anycable_go.Node.Subscriptions.Channels.{
  has_channel-after_add_channel_stream, has_channel-after_add_channel, joined-missing,
}
use anycable_go.Node.Cache.{merge_channels, add_streams, add_channels}

-- The field `k` of a channel in cached states.
abbrev pub cached_field : String → String → Dict String (Dict String String) → String → String
cached_field channel k m before = elim (lookup channel m) [
  | none ↦ before
  | some other ↦ merged (lookup k other) before
]

pub field-merge_channels :
    (channel k : String) (m : Dict String (Dict String String)) (env : SessionEnv)
    → IsDict m
    → Values IsDict m
    → get_channel_state_field channel k (merge_channels m env)
      ≡ cached_field channel k m (get_channel_state_field channel k env)
unfolding merge_channels lookup
field-merge_channels channel k [] env d v = refl
field-merge_channels channel k ((j, other) ∷ m) env d v =
    field-merge_channels channel k m (merge_channel_state j other env) d.1 v.1
    ∙ elim (Bool-cases (j == channel)) [
      | inl same ↦
          let one : j ≡ channel = (==_iff j channel).0 same in
          let last : lookup channel m ≡ none = rw one at d.0 in
          ground (
            arith,
            last,
            same,
            get_channel_state_field-merge_channel_state j channel k other env v.0,
          )
      | inr apart ↦
          ground
            (arith, apart, get_channel_state_field-merge_channel_state j channel k other env v.0)
    ]

pub connection-merge_channels :
    (k : String) (m : Dict String (Dict String String)) (env : SessionEnv)
    → get_connection_state_field k (merge_channels m env) ≡ get_connection_state_field k env
unfolding merge_channels get_connection_state_field merge_channel_state
connection-merge_channels k [] env = refl
connection-merge_channels k ((j, other) ∷ m) env =
    connection-merge_channels k m (merge_channel_state j other env)

pub identifiers-merge_channels :
    (m : Dict String (Dict String String)) (env : SessionEnv)
    → (merge_channels m env).identifiers ≡ env.identifiers
unfolding merge_channels merge_channel_state
identifiers-merge_channels [] env = refl
identifiers-merge_channels ((j, other) ∷ m) env =
    identifiers-merge_channels m (merge_channel_state j other env)

joined-add_streams :
    (id : String) (names : List String) (st : SubscriptionState) (channel stream : String)
    → has_channel id st ≡ true
    → joined channel stream (add_streams id names st)
      ≡ ((id == channel && contains stream names) || joined channel stream st)
unfolding add_streams contains
joined-add_streams id [] st channel stream h = ground arith
joined-add_streams id (name ∷ names) st channel stream h =
    joined-add_streams id names (add_channel_stream id name st) channel stream
      (has_channel-after_add_channel_stream id id name st ∙ h)
    ∙ ground (arith, h, joined-add_channel_stream id st channel stream name)

has_channel-add_streams :
    (id channel : String) (names : List String) (st : SubscriptionState)
    → has_channel channel (add_streams id names st) ≡ has_channel channel st
unfolding add_streams
has_channel-add_streams id channel [] st = refl
has_channel-add_streams id channel (name ∷ names) st =
    has_channel-add_streams id channel names (add_channel_stream id name st)
    ∙ has_channel-after_add_channel_stream id channel name st

-- None of the channels of the map is there yet.
abbrev pub Fresh : Dict String (List String) → SubscriptionState → Type 0
Fresh m st = (k : String) → has_channel k st ≡ true → lookup k m ≡ none

has_channel-start_channel :
    (k j : String) (v : List String) (st : SubscriptionState)
    → has_channel j (add_streams k v (add_channel k st)) ≡ (k == j || has_channel j st)
has_channel-start_channel k j v st =
    has_channel-add_streams k j v (add_channel k st) ∙ has_channel-after_add_channel k j st

Fresh-new :
    (k : String) (v : List String) (m : Dict String (List String)) (st : SubscriptionState)
    → Fresh ((k, v) ∷ m) st
    → has_channel k st ≡ false
unfolding lookup
Fresh-new k v m st fresh = elim (Bool-cases (has_channel k st)) [
  | inl there ↦ absurd (none-ne-some (sym (rw (==_refl k) at (fresh k there))))
  | inr new ↦ new
]

Fresh-start_channel :
    (k : String) (v : List String) (m : Dict String (List String)) (st : SubscriptionState)
    → lookup k m ≡ none
    → Fresh ((k, v) ∷ m) st
    → Fresh m (add_streams k v (add_channel k st))
unfolding lookup
Fresh-start_channel k v m st d fresh j h = elim (Bool-cases (k == j)) [
  | inl same ↦ rw ((==_iff k j).0 same) at d
  | inr apart ↦ ground (arith, apart, h, has_channel-start_channel k j v st, fresh j)
]

pub joined-add_channels :
    (m : Dict String (List String)) (st : SubscriptionState) (channel stream : String)
    → IsDict m
    → Fresh m st
    → joined channel stream (add_channels m st) ≡ (elim (lookup channel m) [
      | none ↦ joined channel stream st
      | some names ↦ contains stream names
    ])
unfolding add_channels lookup
joined-add_channels [] st channel stream d fresh = refl
joined-add_channels ((k, v) ∷ m) st channel stream d fresh =
    let new = Fresh-new k v m st fresh in
    let rest =
      joined-add_channels m (add_streams k v (add_channel k st)) channel stream d.1
        (Fresh-start_channel k v m st d.0 fresh) in
    let started =
      joined-add_streams k v (add_channel k st) channel stream
        (has_channel-after_add_channel k k st ∙ rw (==_refl k) refl) in
    elim (Bool-cases (k == channel)) [
      | inl same ↦
          let one : k ≡ channel = (==_iff k channel).0 same in
          let last : lookup channel m ≡ none = rw one at d.0 in
          ground (
            arith,
            same,
            last,
            rest,
            started,
            joined-add_channel k st channel stream new,
            joined-missing channel stream st (rw one at new),
          )
      | inr apart ↦ ground (arith, apart, rest, started, joined-add_channel k st channel stream new)
    ]

pub has_channel-add_channels :
    (m : Dict String (List String)) (st : SubscriptionState) (channel : String)
    → has_channel channel (add_channels m st)
      ≡ (elim (lookup channel m) [ none ↦ has_channel channel st | some names ↦ true ])
unfolding add_channels lookup
has_channel-add_channels [] st channel = refl
has_channel-add_channels ((k, v) ∷ m) st channel = ground (
  arith,
  has_channel-add_channels m (add_streams k v (add_channel k st)) channel,
  has_channel-start_channel k channel v st,
)

-- The channels of the session stay a map.
add_channel_stream-IsDict :
    (id name : String) (st : SubscriptionState)
    → IsDict st.channels
    → IsDict (add_channel_stream id name st).channels
unfolding add_channel_stream
add_channel_stream-IsDict id name st d = elim (Option-cases (lookup id st.channels)) [
  | inl missing ↦ rw (add_channel_stream, missing) d
  | inr (streams, at) ↦ rw (add_channel_stream, at) (put-IsDict id _ st.channels d)
]

add_streams-IsDict :
    (id : String) (names : List String) (st : SubscriptionState)
    → IsDict st.channels
    → IsDict (add_streams id names st).channels
unfolding add_streams
add_streams-IsDict id [] st d = d
add_streams-IsDict id (name ∷ names) st d =
    add_streams-IsDict id names (add_channel_stream id name st)
      (add_channel_stream-IsDict id name st d)

pub add_channels-IsDict :
    (m : Dict String (List String)) (st : SubscriptionState)
    → IsDict st.channels
    → IsDict (add_channels m st).channels
unfolding add_channels add_channel
add_channels-IsDict [] st d = d
add_channels-IsDict ((k, v) ∷ m) st d =
    add_channels-IsDict m (add_streams k v (add_channel k st))
      (add_streams-IsDict k v (add_channel k st) (put-IsDict k [] st.channels d))
