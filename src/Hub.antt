-- ===== src/Hub.antt =====
-- hub/hub.go: the sessions of a node, and the gates that their subscriptions are spread over.
pub mod Gates
pub mod Index
pub mod Streams
pub mod Sharding
pub mod Registry
pub mod Channel
mod Tests
use anycable_go.Prelude.{
  Bool, List, Option, String, [], if◌then◌else◌, is_empty, length, none, some, suc, true, zero, ℕ,
  ◌++◌, ◌+◌, ◌∷◌, string_eq, nat_eq,
}
use anycable_go.Prelude.Dict.{Dict, delete, lookup, put}
use anycable_go.Common.{StreamMessage}
use anycable_go.Hub.Gates
use anycable_go.Hub.Gates.{Gate, Directory, new_gate}
use Index.{index}
use Streams.{StreamPair, remove_stream, unsubscribe_loop, Slice}

-- HubSessionInfo: the session and its pairs of a stream and an identifier.
pub record HubSessionInfo : Type 0 where
  pub session : ℕ
  pub streams : List StreamPair

pub record Hub : Type 0 where
  pub gates : List Gate
  pub sessions : Dict String HubSessionInfo
  pub identifiers : Dict String (Dict String Bool)

-- buildGates.
pub build_gates : ℕ → List Gate
build_gates zero = []
build_gates (suc n) = new_gate ∷ build_gates n

pub new_hub : ℕ → Hub
unfolding build_gates
new_hub pool_size = record { gates = build_gates pool_size; sessions = []; identifiers = [] }

-- `h.gates[i]`; an index out of range is not reached with at least one gate.
abbrev pub gate_or_new : List Gate → ℕ → Gate
gate_or_new [] i = new_gate
gate_or_new (g ∷ gs) zero = g
gate_or_new (g ∷ gs) (suc i) = gate_or_new gs i

abbrev pub set_gate : List Gate → ℕ → Gate → List Gate
set_gate [] i g' = []
set_gate (g ∷ gs) zero g' = g' ∷ gs
set_gate (g ∷ gs) (suc i) g' = g ∷ set_gate gs i g'

-- The gate of a stream, `h.gates[index(stream, h.gatesNum)]`.
unfoldable pub gate_of : String → List Gate → Gate
gate_of stream gates = gate_or_new gates (index stream (length gates))

unfoldable pub on_gate : String → (Gate → Gate) → List Gate → List Gate
on_gate stream f gates =
    let i = index stream (length gates) in set_gate gates i (f (gate_or_new gates i))

pub size : Hub → ℕ
size h = length h.sessions

pub uniq_size : Hub → ℕ
uniq_size h = length h.identifiers

abbrev sum_sizes : List Gate → ℕ
sum_sizes [] = 0
sum_sizes (g ∷ gs) = Gates.size g + sum_sizes gs

pub streams_size : Hub → ℕ
streams_size h = sum_sizes h.gates

pub unsubscribe_all : ℕ → List StreamPair → List Gate → List Gate
unsubscribe_all session [] gates = gates
unsubscribe_all session ((stream, identifier) ∷ rest) gates =
    unsubscribe_all session rest
      (on_gate stream (Gates.unsubscribe session stream identifier) gates)

-- `delete(h.identifiers[identifiers], uid)`, and the entry itself when it is empty or nil.
pub forget_identifier :
    String → String → Dict String (Dict String Bool) → Dict String (Dict String Bool)
forget_identifier ids uid m = elim (lookup ids m) [
  | none ↦ m
  | some known ↦
      let left = delete uid known in if is_empty left then delete ids m else put ids left m
]

module _ (dir : Directory) where
  pub add_session : ℕ → Hub → Hub
  add_session session h =
      let uid = dir.id session in
      let ids = dir.identifiers session in
      let known : Dict String Bool = elim (lookup ids h.identifiers) [ none ↦ [] | some m ↦ m ] in
      record h {
        sessions = put uid (record { session = session; streams = [] }) h.sessions;
        identifiers = put ids (put uid true known) h.identifiers;
      }

  pub unsubscribe_session_from_all_channels : ℕ → Hub → Hub
  unfolding unsubscribe_all
  unsubscribe_session_from_all_channels session h = elim (lookup (dir.id session) h.sessions) [
    | none ↦ h
    | some info ↦ record h { gates = unsubscribe_all session info.streams h.gates }
  ]

  pub remove_session : ℕ → Hub → Hub
  unfolding unsubscribe_session_from_all_channels forget_identifier
  remove_session session h =
      let uid = dir.id session in
      let ids = dir.identifiers session in
      let h' = unsubscribe_session_from_all_channels session h in
      elim (lookup uid h.sessions) [
        | none ↦ h
        | some info ↦ record h' {
          sessions = delete uid h'.sessions;
          identifiers = forget_identifier ids uid h'.identifiers;
        }
      ]

  pub subscribe_session : ℕ → String → String → Hub → Hub
  subscribe_session session stream identifier h =
      let sid = dir.id session in
      let info : HubSessionInfo = elim (lookup sid h.sessions) [
        | none ↦ record { session = session; streams = [] }
        | some known ↦ known
      ] in
      record h {
        gates = on_gate stream (Gates.subscribe session stream identifier) h.gates;
        sessions =
            put sid (record info { streams = info.streams ++ (stream, identifier) ∷ [] })
              h.sessions;
      }

  pub unsubscribe_session : ℕ → String → String → Hub → Hub
  unsubscribe_session session stream identifier h =
      let sid = dir.id session in
      record h {
        gates = on_gate stream (Gates.unsubscribe session stream identifier) h.gates;
        sessions = elim (lookup sid h.sessions) [
          | none ↦ h.sessions
          | some info ↦
              put sid (record info { streams = remove_stream stream identifier info.streams })
                h.sessions
        ];
      }

  pub unsubscribe_session_from_channel : ℕ → String → Hub → Hub
  unfolding unsubscribe_all
  unsubscribe_session_from_channel session target h =
      let sid = dir.id session in
      elim (lookup sid h.sessions) [
        | none ↦ h
        | some info ↦
            let whole : Slice = record { live = info.streams; stale = [] } in
            let (dropped, left) = unsubscribe_loop target 0 (length info.streams) whole in
            record h {
              gates = unsubscribe_all session dropped h.gates;
              sessions = put sid (record info { streams = left.live }) h.sessions;
            }
      ]

-- The sessions that a remote disconnect of `identifier` closes.
pub disconnected : Dict String Bool → Dict String HubSessionInfo → List ℕ
disconnected [] sessions = []
disconnected ((id, b) ∷ ids) sessions =
    let rest = disconnected ids sessions in
    elim (lookup id sessions) [ none ↦ rest | some info ↦ info.session ∷ rest ]

pub find_by_identifier : String → Hub → Option ℕ
unfolding disconnected
find_by_identifier id h = elim (lookup id h.identifiers) [
  | none ↦ none
  | some ids ↦ elim (disconnected ids h.sessions) [ [] ↦ none | s ∷ ss ↦ some s ]
]

-- disconnectSessions: the sessions that are told to close, in the order of the map.
pub disconnect_sessions : String → Hub → List ℕ
unfolding disconnected
disconnect_sessions identifier h = elim (lookup identifier h.identifiers) [
  | none ↦ []
  | some ids ↦ disconnected ids h.sessions
]

-- `none`: the gate's channel is full, and the hub waits.
pub broadcast_to_stream : StreamMessage → Hub → Option Hub
broadcast_to_stream msg h = elim (Gates.broadcast msg (gate_of msg.stream h.gates)) [
  | none ↦ none
  | some g ↦ some (record h { gates = on_gate msg.stream (λ _. g) h.gates })
]
