-- ===== src/Broker/Presence/Expiry/Expired.antt =====
-- Who is present after expirePresence of broker/memory.go.
use anycable_go.Prelude.{
  ==_iff, ==_refl, Bool-cases, List, Option-cases, String, [], arith, contains, if◌then◌else◌, inl,
  inr, none, refl, some, sym, ℕ, ◌&&◌, ◌==◌, ◌∙◌, ◌∷◌, ◌≡◌, string_eq, nat_eq,
}
use anycable_go.Prelude.Dict.{
  Dict, IsDict, Values, delete, delete-Values, lookup, lookup-Values, lookup-delete, lookup-put,
  put,
}
use anycable_go.Broker.Presence.Remove.{entry_at-drop_member}
use anycable_go.Broker.Presence.Without.{without-IsPresence}
use anycable_go.Broker.Presence.View.{
  entry_at, joined_as, IsPresence, same-IsPresence, holds-some, or_none, or_none-some,
}
use anycable_go.Broker.Presence.Expiry.{
  overdue, expire_member, expire_members, expire_session, expire_sessions, expire_presence,
}
use anycable_go.Broker.Presence.{
  PresenceEntry, PresenceSession, PresenceState, PresenceEvent, drop_member,
}

-- No stream stands twice in a session's own index, as in every Go map.
abbrev pub IsIndexed : PresenceSession → Type 0
IsIndexed s = IsDict s.streams

module _ {A : Type 0} (to_json : PresenceEvent A → String) (sid : String) (deadline : ℕ)
    (sessions : Dict String PresenceSession) where
  -- The session has left all its streams but those.
  abbrev with_streams :
      Dict String String → Dict String (Dict String (PresenceEntry A)) → PresenceState A
  with_streams own streams = record {
    streams = streams;
    sessions = put sid (record { streams = own; deadline = deadline }) sessions;
  }

  joined_as-with_streams :
      (own : Dict String String) (streams : Dict String (Dict String (PresenceEntry A)))
      (t s : String)
      → joined_as t s (with_streams own streams)
        ≡ (if sid == t then lookup s own else or_none (lookup t sessions) (λ x. lookup s x.streams))
  joined_as-with_streams own streams t s =
      ground (arith, lookup-put sid t (record { streams = own; deadline = deadline }) sessions)

  full_joined :
      (stream pid : String) (rest : Dict String String)
      (streams : Dict String (Dict String (PresenceEntry A)))
      → joined_as sid stream (with_streams ((stream, pid) ∷ rest) streams) ≡ some pid
  unfolding lookup
  full_joined stream pid rest streams =
      joined_as-with_streams ((stream, pid) ∷ rest) streams sid stream
      ∙ ground (arith, ==_refl sid, ==_refl stream)

  rest_listed :
      (stream pid : String) (rest : Dict String String)
      (streams streams' : Dict String (Dict String (PresenceEntry A)))
      → lookup stream rest ≡ none
      → (t s : String)
      → joined_as t s (with_streams rest streams') ≡ (
          if sid == t && stream == s
          then none
          else joined_as t s (with_streams ((stream, pid) ∷ rest) streams))
  unfolding lookup
  rest_listed stream pid rest streams streams' once t s =
      joined_as-with_streams rest streams' t s
      ∙ rw (joined_as-with_streams ((stream, pid) ∷ rest) streams t s)
          (ground (arith, once, ==_iff stream s))

  -- The first stream goes.
  member_left :
      (stream pid : String) (rest : Dict String String)
      (streams : Dict String (Dict String (PresenceEntry A)))
      → lookup stream rest ≡ none
      → IsPresence (with_streams ((stream, pid) ∷ rest) streams)
      → IsPresence (with_streams rest (expire_member to_json sid stream pid streams).1)
  unfolding expire_member
  member_left stream pid rest streams once v =
      let full = with_streams ((stream, pid) ∷ rest) streams in
      let joined = full_joined stream pid rest streams in
      let (entry, here) =
        holds-some sid (entry_at stream pid full) ((v.agree sid stream pid).1 joined) in
      let (present, on_stream, under_pid) =
        or_none-some (lookup stream streams) (λ m. lookup pid m) here in
      let streams' = (drop_member stream sid pid entry present streams).1 in
      rw (on_stream, under_pid, expire_member)
        (without-IsPresence stream sid pid full entry (with_streams rest streams') here joined
          (entry_at-drop_member stream sid pid entry present streams on_stream)
          (rest_listed stream pid rest streams streams' once) v)

  members_left :
      (own : Dict String String) (streams : Dict String (Dict String (PresenceEntry A)))
      → IsDict own
      → IsPresence (with_streams own streams)
      → IsPresence (with_streams [] (expire_members to_json sid own streams).1)
  unfolding expire_members
  members_left [] streams d v = v
  members_left ((stream, pid) ∷ rest) streams d v =
      members_left rest (expire_member to_json sid stream pid streams).1 d.1
        (member_left stream pid rest streams d.0 v)

module _ {A : Type 0} (to_json : PresenceEvent A → String) where
  joined_as-delete :
      (sid : String) (sessions : Dict String PresenceSession) (t s : String)
      → or_none (lookup t (delete sid sessions)) (λ x. lookup s x.streams)
        ≡ (if sid == t then none else or_none (lookup t sessions) (λ x. lookup s x.streams))
  joined_as-delete sid sessions t s = ground (arith, lookup-delete sid t sessions)

  known_session :
      (sid : String) (sessions : Dict String PresenceSession) (session : PresenceSession)
      → lookup sid sessions ≡ some session
      → (t s : String)
      → (if sid == t
          then lookup s session.streams
          else or_none (lookup t sessions) (λ x. lookup s x.streams))
        ≡ or_none (lookup t sessions) (λ x. lookup s x.streams)
  known_session sid sessions session e t s = elim (Bool-cases (sid == t)) [
    | inl its ↦
        let same : sid ≡ t = (==_iff sid t).0 its in
        let found : lookup t sessions ≡ some session = rw same at e in rw (its, found) refl
    | inr other ↦ rw other refl
  ]

  unknown_session :
      (sid : String) (sessions : Dict String PresenceSession)
      → lookup sid sessions ≡ none
      → (t s : String)
      → (if sid == t then none else or_none (lookup t sessions) (λ x. lookup s x.streams))
        ≡ or_none (lookup t sessions) (λ x. lookup s x.streams)
  unknown_session sid sessions e t s = elim (Bool-cases (sid == t)) [
    | inl its ↦
        let same : sid ≡ t = (==_iff sid t).0 its in
        let found : lookup t sessions ≡ none = rw same at e in rw (its, found) refl
    | inr other ↦ rw other refl
  ]

  expire_session-IsPresence :
      (sid : String) (ps : PresenceState A)
      → Values IsIndexed ps.sessions
      → IsPresence ps
      → IsPresence (expire_session to_json sid ps).1
  unfolding expire_session expire_members lookup
  expire_session-IsPresence sid ps d v = elim (Option-cases (lookup sid ps.sessions)) [
    | inl missing ↦
        rw (missing, expire_session)
          (same-IsPresence ps (record { streams = ps.streams; sessions = delete sid ps.sessions })
            (λ s p. refl)
            (λ t s.
              joined_as-delete sid ps.sessions t s ∙ unknown_session sid ps.sessions missing t s)
            v)
    | inr (session, known) ↦
        let own = session.streams in
        let with_all = with_streams to_json sid session.deadline ps.sessions own ps.streams in
        let before =
          same-IsPresence ps with_all (λ s p. refl)
            (λ t s.
              joined_as-with_streams to_json sid session.deadline ps.sessions own ps.streams t s
              ∙ known_session sid ps.sessions session known t s)
            v in
        let indexed = lookup-Values IsIndexed sid session ps.sessions d known in
        let streams' = (expire_members to_json sid own ps.streams).1 in
        let after =
          members_left to_json sid session.deadline ps.sessions own ps.streams indexed before in
        rw (known, expire_session)
          (same-IsPresence (with_streams to_json sid session.deadline ps.sessions [] streams')
            (record { streams = streams'; sessions = delete sid ps.sessions }) (λ s p. refl)
            (λ t s.
              joined_as-delete sid ps.sessions t s
              ∙ sym
                  (joined_as-with_streams to_json sid session.deadline ps.sessions [] streams' t s))
            after)
  ]

  -- One session has left everything.
  session_left :
      (sid : String) (ps : PresenceState A)
      → Values IsIndexed ps.sessions
      → IsPresence ps
      → let qs = (expire_session to_json sid ps).1 in
        IsPresence qs
        × (qs.sessions ≡ delete sid ps.sessions)
        × ((t s : String) → joined_as t s qs ≡ (if sid == t then none else joined_as t s ps))
  unfolding expire_session expire_members
  session_left sid ps d v =
      (expire_session-IsPresence sid ps d v, refl, joined_as-delete sid ps.sessions)

  sessions_left :
      (sids : List String) (ps : PresenceState A)
      → Values IsIndexed ps.sessions
      → IsPresence ps
      → let qs = (expire_sessions to_json sids ps).1 in
        IsPresence qs
        × ((t s : String) → joined_as t s qs ≡ (if contains t sids then none else joined_as t s ps))
  unfolding expire_sessions contains
  sessions_left [] ps d v = (v, λ t s. refl)
  sessions_left (sid ∷ sids) ps d v =
      let (v1, same, left1) = session_left sid ps d v in
      let qs = (expire_session to_json sid ps).1 in
      let d1 : Values IsIndexed qs.sessions = rw same (delete-Values IsIndexed sid ps.sessions d) in
      let (v2, left2) = sessions_left sids qs d1 v1 in
      (v2, λ t s. left2 t s ∙ rw (left1 t s) (ground arith))

  -- Expiry keeps the two indexes of the presence in agreement, and every record under its own ID with
  -- its distinct sessions, at least one. Afterwards the sessions whose deadline has passed are on no
  -- stream, and every other session is where it was, under the same ID.
  pub expire_presence-IsPresence :
      (now : ℕ) (ps : PresenceState A)
      → Values IsIndexed ps.sessions
      → IsPresence ps
      → let qs = (expire_presence to_json now ps).1 in
        IsPresence qs
        × ((t s : String)
            → joined_as t s qs
              ≡ (if contains t (overdue now ps.sessions) then none else joined_as t s ps))
  unfolding expire_presence
  expire_presence-IsPresence now ps d v = sessions_left (overdue now ps.sessions) ps d v
