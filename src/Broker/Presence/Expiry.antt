-- ===== src/Broker/Presence/Expiry.antt =====
-- expirePresence of broker/memory.go: the sessions whose deadline has passed leave every stream.
pub mod Expired
use anycable_go.Prelude.{
  List, String, [], if◌then◌else◌, ltb, none, some, true, ℕ, ◌&&◌, ◌++◌, ◌∷◌, string_eq, nat_eq,
}
use anycable_go.Prelude.Dict.{Dict, delete, lookup}
use anycable_go.Common.{StreamMessage, presence_type}
use anycable_go.Broker.Presence.{
  drop_member, PresenceSession, PresenceEvent, PresenceEntry, PresenceState, presence_leave_type,
}

-- `toDelete`: the sessions with a deadline before `now`.
pub overdue : ℕ → Dict String PresenceSession → List String
overdue now [] = []
overdue now ((sid, sp) ∷ m) =
    let rest = overdue now m in
    if ltb 0 sp.deadline && ltb sp.deadline now then sid ∷ rest else rest

-- `to_json` writes a presence event as JSON text.
module _ {A : Type 0} (to_json : PresenceEvent A → String) where
  pub leave_message : String → String → StreamMessage
  leave_message stream pid = record {
    stream = stream;
    body = to_json (record { kind = presence_leave_type; info = none; id = pid });
    meta = some (record { exclude_socket = ""; broadcast_type = presence_type; transient = true });
    offset = 0;
    epoch = "";
  }

  -- One turn of the loop over a session's streams.
  pub expire_member :
      String
      → String
      → String
      → Dict String (Dict String (PresenceEntry A))
      → List StreamMessage × Dict String (Dict String (PresenceEntry A))
  unfolding drop_member leave_message
  expire_member sid stream pid streams = elim (lookup stream streams) [
    | none ↦ ([], streams)
    | some present ↦ elim (lookup pid present) [
      | none ↦ ([], streams)
      | some entry ↦
          let (empty, streams') = drop_member stream sid pid entry present streams in
          ((if empty then leave_message stream pid ∷ [] else []), streams')
    ]
  ]

  pub expire_members :
      String
      → Dict String String
      → Dict String (Dict String (PresenceEntry A))
      → List StreamMessage × Dict String (Dict String (PresenceEntry A))
  expire_members sid [] streams = ([], streams)
  expire_members sid ((stream, pid) ∷ rest) streams =
      let (ms, streams') = expire_member sid stream pid streams in
      let (ns, streams'') = expire_members sid rest streams' in (ms ++ ns, streams'')

  -- One turn of the loop over the sessions to delete.
  pub expire_session : String → PresenceState A → List StreamMessage × PresenceState A
  expire_session sid ps =
      let session : PresenceSession = elim (lookup sid ps.sessions) [
        | none ↦ record { streams = []; deadline = 0 }
        | some s ↦ s
      ] in
      let (ms, streams') = expire_members sid session.streams ps.streams in
      (ms, record { streams = streams'; sessions = delete sid ps.sessions })

  pub expire_sessions : List String → PresenceState A → List StreamMessage × PresenceState A
  expire_sessions [] ps = ([], ps)
  expire_sessions (sid ∷ sids) ps =
      let (ms, ps') = expire_session sid ps in
      let (ns, ps'') = expire_sessions sids ps' in (ms ++ ns, ps'')

  -- The leave messages that the broadcaster is given, and the state without the sessions.
  pub expire_presence : ℕ → PresenceState A → List StreamMessage × PresenceState A
  expire_presence now ps = expire_sessions (overdue now ps.sessions) ps
