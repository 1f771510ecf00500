-- ===== src/Node/Cache/RoundTrip.antt =====
-- ToCacheEntry, then RestoreFromCache of node/session.go in a session of another connection.
use anycable_go.Prelude.{
  Bool, Option, Option-cases, String, [], arith, contains, false, none, refl, some, true, ◌||◌, ◌∙◌,
  ◌≡◌, string_eq, nat_eq,
}
use anycable_go.Prelude.Dict.{Dict, IsDict, Values, lookup}
use anycable_go.Common.Env.{
  SessionEnv, get_channel_state_field, get_connection_state_field, merged, merge_connection_state,
  field, field-merge,
}
use anycable_go.Node.Subscriptions.{SubscriptionState, joined, has_channel, to_map, keys}
use anycable_go.Node.Subscriptions.Channels.{
  joined-missing, contains-keys, lookup-streams_of, streams_of-IsDict,
}
use anycable_go.Node.Cache.{Codec, entry_of, restored, restore_from_cache, to_cache_entry}
use anycable_go.Node.Cache.Restored.{
  field-merge_channels, connection-merge_channels, identifiers-merge_channels, joined-add_channels,
  has_channel-add_channels, add_channels-IsDict, Fresh, cached_field,
}
use anycable_go.Node.Steps.{Session, done}

-- The maps of a session have every key once, as Go's maps have.
pub record IsStored (s : Session) : Type 0 where
  pub connection : IsDict s.env.connection_state
  pub states : IsDict s.env.channel_states
  pub state : Values IsDict s.env.channel_states
  pub channels : IsDict s.subscriptions.channels

-- A session as NewSession makes it, with no state yet.
pub record IsFresh (f : Session) : Type 0 where
  pub free : f.locked ≡ false
  pub no_connection : f.env.connection_state ≡ []
  pub no_states : f.env.channel_states ≡ []
  pub no_channels : f.subscriptions.channels ≡ []

-- An environment and subscriptions with the identifiers, states, channels and streams of a session.
pub record SameState (s : Session) (env : SessionEnv) (st : SubscriptionState) : Type 0 where
  pub identifiers : env.identifiers ≡ s.env.identifiers
  pub connection :
      (k : String) → get_connection_state_field k env ≡ get_connection_state_field k s.env
  pub state :
      (channel k : String)
      → get_channel_state_field channel k env ≡ get_channel_state_field channel k s.env
  pub channels : (channel : String) → has_channel channel st ≡ has_channel channel s.subscriptions
  pub streams :
      (channel stream : String) → joined channel stream st ≡ joined channel stream s.subscriptions

abbrev pub Resumes : Session → Session → Type 0
Resumes s t = SameState s t.env t.subscriptions

-- A merge into an empty state shows the merged values.
field-merge_none :
    (k : String) (m before : Dict String String)
    → before ≡ []
    → merged (lookup k m) (field k before) ≡ field k m
unfolding field lookup
field-merge_none k m before e = ground (arith, e, Option-cases (lookup k m))

cached_field-none :
    (channel k : String) (m before : Dict String (Dict String String)) (env : SessionEnv)
    → before ≡ []
    → cached_field channel k m
        (get_channel_state_field channel k (record env { channel_states = before }))
      ≡ get_channel_state_field channel k (record env { channel_states = m })
unfolding get_channel_state_field field lookup
cached_field-none channel k m before env e = ground (arith, e, Option-cases (lookup channel m))

-- The streams of the channel, if it is there.
keys_of :
    (stream : String) (o : Option (Dict String Bool))
    → (elim o [ none ↦ false | some m ↦ contains stream (keys m) ])
      ≡ (elim o [ none ↦ false | some m ↦ elim (lookup stream m) [ none ↦ false | some b ↦ true ] ])
keys_of stream none = refl
keys_of stream (some m) = contains-keys stream m

module _ (s f : Session) (w : IsStored s) (n : IsFresh f) where
  abbrev start : SessionEnv
  start =
      merge_connection_state s.env.connection_state
        (record f.env { identifiers = s.env.identifiers })

  connection-restored :
      (k : String)
      → get_connection_state_field k (restored (entry_of s) f).env
        ≡ get_connection_state_field k s.env
  unfolding get_connection_state_field merge_connection_state field lookup
  connection-restored k =
      connection-merge_channels k s.env.channel_states start
      ∙ field-merge k s.env.connection_state f.env.connection_state w.connection
      ∙ field-merge_none k s.env.connection_state f.env.connection_state n.no_connection

  state-restored :
      (channel k : String)
      → get_channel_state_field channel k (restored (entry_of s) f).env
        ≡ get_channel_state_field channel k s.env
  unfolding get_channel_state_field merge_connection_state field lookup
  state-restored channel k =
      field-merge_channels channel k s.env.channel_states start w.states w.state
      ∙ cached_field-none channel k s.env.channel_states f.env.channel_states s.env n.no_states

  no_channel : (channel : String) → has_channel channel f.subscriptions ≡ false
  unfolding has_channel lookup
  no_channel channel = rw n.no_channels refl

  fresh : Fresh (to_map s.subscriptions) f.subscriptions
  fresh k h = absurd (cc (no_channel k))

  streams-restored :
      (channel stream : String)
      → joined channel stream (restored (entry_of s) f).subscriptions
        ≡ joined channel stream s.subscriptions
  unfolding joined lookup to_map
  streams-restored channel stream =
      joined-add_channels (to_map s.subscriptions) f.subscriptions channel stream
        (streams_of-IsDict s.subscriptions.channels w.channels) fresh
      ∙ ground (
        arith,
        joined-missing channel stream f.subscriptions (no_channel channel),
        lookup-streams_of channel s.subscriptions.channels,
        keys_of stream (lookup channel s.subscriptions.channels),
      )

  channels-restored :
      (channel : String)
      → has_channel channel (restored (entry_of s) f).subscriptions
        ≡ has_channel channel s.subscriptions
  unfolding has_channel lookup to_map
  channels-restored channel =
      has_channel-add_channels (to_map s.subscriptions) f.subscriptions channel
      ∙ ground (arith, no_channel channel, lookup-streams_of channel s.subscriptions.channels)

  pub restored-Resumes : Resumes s (restored (entry_of s) f)
  unfolding merge_connection_state
  restored-Resumes = record {
    identifiers = identifiers-merge_channels s.env.channel_states start;
    connection = connection-restored;
    state = state-restored;
    channels = channels-restored;
    streams = streams-restored;
  }

  pub channels-IsDict : IsDict (restored (entry_of s) f).subscriptions.channels
  channels-IsDict =
      add_channels-IsDict (to_map s.subscriptions) f.subscriptions (rw n.no_channels tt)

  -- A session whose lock is free is written to the cache. A session with no state yet that is given
  -- that text, by a codec that reads back what it wrote of the session, takes it in to the end, with its lock free
  -- again. It then has the other's identifiers, connection state, channel states, channels and
  -- streams, and is disconnectable if either of the two was.
  pub restore_from_cache-to_cache_entry :
      (A M : Type 0) (codec : Codec)
      → codec.decode (codec.encode (entry_of s)) ≡ some (entry_of s)
      → s.locked ≡ false
      → (cached : String) × (s' t : Session) × (to_cache_entry {A = A} {M = M} codec s
          ≡ done cached s' [])
        × (restore_from_cache {A = A} {M = M} codec cached f ≡ done true t [])
        × (t.locked ≡ false)
        × Resumes s t
        × (t.disconnect_interest ≡ (f.disconnect_interest || s.disconnect_interest))
  unfolding restore_from_cache to_cache_entry merge_connection_state
  restore_from_cache-to_cache_entry A M codec law free = (
    codec.encode (entry_of s),
    record s { locked = false },
    record (restored (entry_of s) f) { locked = false },
    rw free refl,
    rw (restore_from_cache, law, n.free) refl,
    refl,
    restored-Resumes,
    refl,
  )
