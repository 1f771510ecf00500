-- ===== src/Common/Env.antt =====
-- SessionEnv of common/common.go: the connection and the channel states of a session.
use anycable_go.Prelude.{
  ==_iff, Bool-cases, Option, String, [], ap, arith, if◌then◌else◌, inl, inr, none, refl, some,
  ◌==◌, ◌∙◌, ◌∷◌, ◌≡◌, string_eq, nat_eq,
}
use anycable_go.Prelude.Dict.{Dict, IsDict, delete, lookup, lookup-delete, lookup-put, put}

-- The states are never nil: NewSessionEnv makes them.
pub record SessionEnv : Type 0 where
  pub url : String
  pub headers : Option (Dict String String)
  pub identifiers : String
  pub connection_state : Dict String String
  pub channel_states : Dict String (Dict String String)

unfoldable pub new_session_env : String → Option (Dict String String) → SessionEnv
new_session_env url headers = record {
  url = url;
  headers = headers;
  identifiers = "";
  connection_state = [];
  channel_states = [];
}

-- The loop of both merges: an empty value takes the key out. It goes in the order of `other`.
unfoldable pub merge : Dict String String → Dict String String → Dict String String
merge [] st = st
merge ((k, v) ∷ other) st = merge other (if v == "" then delete k st else put k v st)

unfoldable pub merge_connection_state : Dict String String → SessionEnv → SessionEnv
merge_connection_state other env = record env {
  connection_state = merge other env.connection_state;
}

unfoldable pub merge_channel_state : String → Dict String String → SessionEnv → SessionEnv
merge_channel_state id other env =
    let known : Dict String String = elim (lookup id env.channel_states) [
      | none ↦ []
      | some st ↦ st
    ] in
    record env { channel_states = put id (merge other known) env.channel_states }

pub remove_channel_state : String → SessionEnv → SessionEnv
remove_channel_state id env = record env { channel_states = delete id env.channel_states }

-- `m[k]`, which is empty for a missing key.
unfoldable pub field : String → Dict String String → String
field k m = elim (lookup k m) [ none ↦ "" | some v ↦ v ]

unfoldable pub get_channel_state_field : String → String → SessionEnv → String
unfolding field
get_channel_state_field id k env = elim (lookup id env.channel_states) [
  | none ↦ ""
  | some st ↦ field k st
]

unfoldable pub get_connection_state_field : String → SessionEnv → String
unfolding field
get_connection_state_field k env = field k env.connection_state

pub set_header : String → String → SessionEnv → SessionEnv
set_header k v env = record env {
  headers = some (elim env.headers [ none ↦ (k, v) ∷ [] | some hs ↦ put k v hs ]);
}

-- The merged value of a key, `st` being what was there.
abbrev pub merged : Option String → String → String
merged none before = before
merged (some v) before = v

pub field-merge :
    (k : String) (other st : Dict String String)
    → IsDict other
    → field k (merge other st) ≡ merged (lookup k other) (field k st)
unfolding merge field lookup
field-merge k [] st d = refl
field-merge k ((j, v) ∷ other) st d =
    field-merge k other (if v == "" then delete j st else put j v st) d.1
    ∙ elim (Bool-cases (j == k)) [
      | inl same ↦
          let one : j ≡ k = (==_iff j k).0 same in
          let last : lookup k other ≡ none = rw one at d.0 in
          rw (same, last)
            (ground (arith, same, ==_iff v "", lookup-put j k v st, lookup-delete j k st))
      | inr apart ↦ rw apart (
          ap (merged (lookup k other))
            (ground (arith, apart, lookup-put j k v st, lookup-delete j k st)))
    ]

field_known :
    (k : String) (o : Option (Dict String String))
    → field k (elim o [ none ↦ [] | some st ↦ st ]) ≡ (elim o [ none ↦ "" | some st ↦ field k st ])
unfolding field lookup
field_known k none = refl
field_known k (some st) = refl

-- After a merge of a map of distinct keys into the state of a channel, a field of that channel has
-- the map's value, also when that is empty, or else the one it had; the fields of other channels,
-- and the connection's, are as they were.
pub get_channel_state_field-merge_channel_state :
    (id channel k : String) (other : Dict String String) (env : SessionEnv)
    → IsDict other
    → (get_channel_state_field channel k (merge_channel_state id other env) ≡ (
        if id == channel
        then merged (lookup k other) (get_channel_state_field channel k env)
        else get_channel_state_field channel k env))
      × (get_connection_state_field k (merge_channel_state id other env)
          ≡ get_connection_state_field k env)
unfolding get_channel_state_field merge_channel_state get_connection_state_field
get_channel_state_field-merge_channel_state id channel k other env d = (
  elim (Bool-cases (id == channel)) [
    | inl same ↦
        let one : id ≡ channel = (==_iff id channel).0 same in
        rw (get_channel_state_field, merge_channel_state, lookup-put, same)
          (field-merge k other _ d
            ∙ ap (merged (lookup k other)) (
                field_known k (lookup id env.channel_states)
                ∙ ap (λ c. get_channel_state_field c k env) one))
    | inr apart ↦ rw (apart, get_channel_state_field, merge_channel_state, lookup-put, apart) refl
  ],
  refl,
)
