-- ===== src/Broker/Presence.antt =====
-- The presence state of broker/memory.go: who is present on which stream, by presence ID.
pub mod Expiry
pub mod View
pub mod Add
pub mod Join
pub mod Remove
pub mod Without
pub mod Leave
use anycable_go.Prelude.{
  Bool, List, Option, Result, String, [], contains, err, false, if◌then◌else◌, is_empty, length,
  map, none, not, ok, remove_first, some, ℕ, ◌++◌, ◌+◌, ◌==◌, ◌∷◌, string_eq, nat_eq,
}
use anycable_go.Prelude.Dict.{Dict, delete, lookup, put}
use anycable_go.Common.{
  PresenceEvent, presence_join_type, presence_leave_type, PresenceInfo, presence_info_type,
}

pub record PresenceEntry (A : Type 0) : Type 0 where
  pub info : Option A
  pub id : String
  pub sessions : List String

-- The presence ID of the session on each stream; a deadline of 0 is none.
pub record PresenceSession : Type 0 where
  pub streams : Dict String String
  pub deadline : ℕ

pub record PresenceState (A : Type 0) : Type 0 where
  pub streams : Dict String (Dict String (PresenceEntry A))
  pub sessions : Dict String PresenceSession

pub data PresenceError : Type 0 where
  id_mismatch stream_not_found info_not_found record_not_found : PresenceError

abbrev pub new_presence_state : (A : Type 0) → PresenceState A
new_presence_state A = record { streams = []; sessions = [] }

-- `m[k]`, with the zero value of a missing key.
pub value_or {ℓ} : {V : Type ℓ} → String → V → Dict String V → V
value_or k d m = elim (lookup k m) [ none ↦ d | some v ↦ v ]

-- `if _, ok := m[k]; !ok { m[k] = v }`.
pub ensure {ℓ} : {V : Type ℓ} → String → V → Dict String V → Dict String V
ensure k v m = elim (lookup k m) [ none ↦ put k v m | some w ↦ m ]

abbrev pub no_streams : PresenceSession
no_streams = record { streams = []; deadline = 0 }

-- The session's record without the stream, and gone with its last stream.
pub leave_stream :
    String → String → PresenceSession → Dict String PresenceSession → Dict String PresenceSession
leave_stream stream sid session sessions =
    let left = delete stream session.streams in
    if is_empty left
    then delete sid sessions
    else put sid (record session { streams = left }) sessions

module _ {A : Type 0} where
  -- Whether the last session has gone; a session that is not there changes nothing.
  pub remove_session : String → PresenceEntry A → Bool × PresenceEntry A
  remove_session sid pe =
      if contains sid pe.sessions
      then (let left = remove_first sid pe.sessions in
          (is_empty left, record pe { sessions = left }))
      else (false, pe)

  pub add_session : String → Option A → PresenceEntry A → PresenceEntry A
  add_session sid info pe = record {
    info = info;
    id = pe.id;
    sessions = if contains sid pe.sessions then pe.sessions else pe.sessions ++ sid ∷ [];
  }

  -- The first two `if`s of `PresenceAdd`: an empty map where there is none.
  pub make_room : String → String → PresenceState A → PresenceState A
  unfolding ensure
  make_room stream sid ps = record {
    streams = ensure stream [] ps.streams;
    sessions = ensure sid no_streams ps.sessions;
  }

  -- `oldPid, ok := …; ok && oldPid != pid`.
  pub mismatch : String → String → String → PresenceState A → Bool
  unfolding value_or
  mismatch stream sid pid ps = elim (lookup stream (value_or sid no_streams ps.sessions).streams) [
    | none ↦ false
    | some old ↦ not (old == pid)
  ]

  -- The rest of `PresenceAdd`, once the presence ID is known to fit.
  pub write_join :
      String
      → String
      → String
      → Option A
      → PresenceState A
      → Option (PresenceEvent A) × PresenceState A
  unfolding add_session value_or
  write_join stream sid pid info ps =
      let session = value_or sid no_streams ps.sessions in
      let present = value_or stream [] ps.streams in
      let known = lookup pid present in
      let entry : PresenceEntry A = elim known [
        | none ↦ record { info = info; id = pid; sessions = [] }
        | some pe ↦ pe
      ] in
      (
        elim known [
          | none ↦ some (record { kind = presence_join_type; info = info; id = pid })
          | some pe ↦ none
        ],
        record {
          streams = put stream (put pid (add_session sid info entry) present) ps.streams;
          sessions =
              put sid (record session { streams = put stream pid session.streams }) ps.sessions;
        },
      )

  pub presence_add :
      String
      → String
      → String
      → Option A
      → PresenceState A
      → Result PresenceError (Option (PresenceEvent A)) × PresenceState A
  unfolding make_room mismatch write_join
  presence_add stream sid pid info ps =
      let room = make_room stream sid ps in
      let (event, joined) = write_join stream sid pid info room in
      if mismatch stream sid pid room then (err id_mismatch, room) else (ok event, joined)

  -- The presence records of the stream without the session, gone when empty.
  pub drop_member :
      String
      → String
      → String
      → PresenceEntry A
      → Dict String (PresenceEntry A)
      → Dict String (Dict String (PresenceEntry A))
      → Bool × Dict String (Dict String (PresenceEntry A))
  unfolding remove_session
  drop_member stream sid pid entry present streams =
      let (empty, entry') = remove_session sid entry in
      let present' = if empty then delete pid present else put pid entry' present in
      (empty, (if is_empty present' then delete stream streams else put stream present' streams))

  pub remove_record :
      String
      → String
      → String
      → Dict String PresenceSession
      → Dict String (PresenceEntry A)
      → Dict String (Dict String (PresenceEntry A))
      → Result PresenceError (Option (PresenceEvent A)) × PresenceState A
  unfolding drop_member
  remove_record stream sid pid sessions present streams = elim (lookup pid present) [
    | none ↦ (err record_not_found, record { streams = streams; sessions = sessions })
    | some entry ↦
        let (empty, streams') = drop_member stream sid pid entry present streams in
        (
          ok (
              if empty
              then some (record { kind = presence_leave_type; info = none; id = pid })
              else none),
          record { streams = streams'; sessions = sessions },
        )
  ]

  pub presence_remove :
      String
      → String
      → PresenceState A
      → Result PresenceError (Option (PresenceEvent A)) × PresenceState A
  unfolding leave_stream remove_record
  presence_remove stream sid ps = elim (lookup stream ps.streams) [
    | none ↦ (err stream_not_found, ps)
    | some present ↦ elim (lookup sid ps.sessions) [
      | none ↦ remove_record stream sid "" ps.sessions present ps.streams
      | some session ↦ elim (lookup stream session.streams) [
        | none ↦ (err info_not_found, ps)
        | some pid ↦
            remove_record stream sid pid (leave_stream stream sid session ps.sessions) present
              ps.streams
      ]
    ]
  ]

  -- The records come in the order of the map, which Go leaves open.
  pub presence_info : String → Bool → PresenceState A → PresenceInfo A
  presence_info stream return_records ps = elim (lookup stream ps.streams) [
    | none ↦ record { kind = presence_info_type; total = 0; records = [] }
    | some present ↦ record {
      kind = presence_info_type;
      total = length present;
      records =
          if return_records
          then map (λ r. record { kind = ""; info = r.1.info; id = r.1.id }) present
          else [];
    }
  ]

  pub finish_presence : ℕ → ℕ → String → PresenceState A → PresenceState A
  finish_presence now ttl sid ps = elim (lookup sid ps.sessions) [
    | none ↦ ps
    | some session ↦ record ps {
      sessions = put sid (record session { deadline = now + ttl }) ps.sessions;
    }
  ]
