-- ===== src/Hub/Gates.antt =====
-- hub/gate.go: one shard of the subscriptions. A session is known by a number, its address.
pub mod Subscriptions
pub mod Invariant
pub mod Delivery
use anycable_go.Prelude.{
  Bool, Eq, List, Option, String, [], false, if◌then◌else◌, is_empty, length, ltb, none, some, true,
  ℕ, ◌++◌, ◌==◌, ◌∷◌, string_eq, nat_eq,
}
use anycable_go.Prelude.Dict.{Dict, delete, lookup, put}
use anycable_go.Common.{StreamMessage, Reply, Json, to_reply_for}

-- What the hub asks of a session (HubSession of hub/hub.go).
pub record Directory : Type 0 where
  pub id : ℕ → String
  pub identifiers : ℕ → String

pub record Gate : Type 0 where
  -- stream, session, identifier
  pub streams : Dict String (Dict ℕ (Dict String Bool))
  -- The messages that wait in the channel, which holds 256.
  pub sender : List StreamMessage

abbrev pub new_gate : Gate
new_gate = record { streams = []; sender = [] }

abbrev pub channel_size : ℕ
channel_size = 256

-- `m[k]` of a map of maps, with nil for a missing key: an empty map to readers.
pub inner {ℓ κ} : {K : Type ℓ} ⦃e : Eq K⦄ {J V : Type κ} → K → Dict K (Dict J V) → Dict J V
inner k m = elim (lookup k m) [ none ↦ [] | some n ↦ n ]

-- `none`: the channel is full, and the caller waits.
pub broadcast : StreamMessage → Gate → Option Gate
broadcast msg g = elim (lookup msg.stream g.streams) [
  | none ↦ some g
  | some sessions ↦
      if ltb (length g.sender) channel_size
      then some (record g { sender = g.sender ++ msg ∷ [] })
      else none
]

pub subscribe : ℕ → String → String → Gate → Gate
unfolding inner
subscribe session stream identifier g =
    let sessions = inner stream g.streams in
    let ids = inner session sessions in
    record g { streams = put stream (put session (put identifier true ids) sessions) g.streams }

-- A map without a key, and gone from its own map when that was the last one.
pub drop_inner {ℓ κ} :
    {K : Type ℓ} ⦃e : Eq K⦄ {J V : Type κ} → K → Dict J V → Dict K (Dict J V) → Dict K (Dict J V)
drop_inner k n m = if is_empty n then delete k m else put k n m

pub unsubscribe : ℕ → String → String → Gate → Gate
unfolding drop_inner
unsubscribe session stream identifier g = elim (lookup stream g.streams) [
  | none ↦ g
  | some sessions ↦ elim (lookup session sessions) [
    | none ↦ g
    | some ids ↦ elim (lookup identifier ids) [
      | none ↦ g
      | some b ↦ record g {
        streams = drop_inner stream (drop_inner session (delete identifier ids) sessions) g.streams;
      }
    ]
  ]
]

pub size : Gate → ℕ
size g = length g.streams

-- `M` is decoded JSON.
module _ {M : Type 0} (json : Json M) (dir : Directory) where
  pub build_message : StreamMessage → String → Reply M
  build_message msg identifier =
      let reply = to_reply_for json identifier msg in
      elim msg.meta [ none ↦ reply | some m ↦ record reply { kind = m.broadcast_type } ]

  -- `streamMsg.Meta != nil && streamMsg.Meta.ExcludeSocket == session.GetID()`.
  pub is_excluded : StreamMessage → ℕ → Bool
  is_excluded msg session = elim msg.meta [
    | none ↦ false
    | some m ↦ m.exclude_socket == dir.id session
  ]

  -- The message for an identifier, from the ones built so far or built and kept.
  pub fetch : StreamMessage → String → Dict String (Reply M) → Reply M × Dict String (Reply M)
  unfolding build_message
  fetch msg id buf = elim (lookup id buf) [
    | none ↦ (build_message msg id, put id (build_message msg id) buf)
    | some known ↦ (known, buf)
  ]

  -- The inner loop: what is sent, and to whom.
  pub send_ids :
      StreamMessage
      → ℕ
      → Dict String Bool
      → Dict String (Reply M)
      → List (ℕ × Reply M) × Dict String (Reply M)
  unfolding fetch
  send_ids msg session [] buf = ([], buf)
  send_ids msg session ((id, b) ∷ ids) buf =
      let (bdata, buf') = fetch msg id buf in
      let (sent, buf'') = send_ids msg session ids buf' in ((session, bdata) ∷ sent, buf'')

  pub send_sessions :
      StreamMessage → Dict ℕ (Dict String Bool) → Dict String (Reply M) → List (ℕ × Reply M)
  unfolding send_ids is_excluded
  send_sessions msg [] buf = []
  send_sessions msg ((session, ids) ∷ rest) buf =
      let (sent, buf') = send_ids msg session ids buf in
      let skip = is_excluded msg session in
      (if skip then [] else sent) ++ send_sessions msg rest (if skip then buf else buf')

  -- The sessions and identifiers are visited in the order of the map, which Go leaves open.
  pub perform_broadcast : StreamMessage → Gate → List (ℕ × Reply M)
  unfolding send_sessions inner
  perform_broadcast msg g = send_sessions msg (inner msg.stream g.streams) []

-- One turn of the loop that empties the channel.
pub broadcast_loop : {M : Type 0} → Json M → Directory → Gate → List (ℕ × Reply M) × Gate
unfolding perform_broadcast
broadcast_loop json dir g = elim g.sender [
  | [] ↦ ([], g)
  | msg ∷ rest ↦ (perform_broadcast json dir msg g, record g { sender = rest })
]
