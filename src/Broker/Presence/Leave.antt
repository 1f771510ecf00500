-- ===== src/Broker/Presence/Leave.antt =====
-- PresenceRemove of broker/memory.go as a whole: its event, and who is present afterwards.
use anycable_go.Prelude.{
  ==_refl, Option, String, ap, arith, if◌then◌else◌, none, ok, some, ◌&&◌, ◌==◌, ◌≡◌, string_eq,
  nat_eq,
}
use anycable_go.Prelude.Dict.{Dict, lookup}
use anycable_go.Broker.Presence.Remove.{left, joined_as-leave_stream, entry_at-drop_member}
use anycable_go.Broker.Presence.Without.{without-IsPresence}
use anycable_go.Broker.Presence.View.{entry_at, joined_as, IsPresence, or_none-some, holds-some}
use anycable_go.Broker.Presence.{
  drop_member, leave_stream, remove_record, PresenceEntry, PresenceState, PresenceEvent,
  PresenceSession, presence_leave_type, presence_remove, remove_session,
}

-- The event for a presence ID: it leaves with its last session.
abbrev pub leave_event : {A : Type 0} → String → Option (PresenceEntry A) → Option (PresenceEvent A)
leave_event pid none = some (record { kind = presence_leave_type; info = none; id = pid })
leave_event pid (some entry) = none

module _ {A : Type 0} (stream sid pid : String) (ps : PresenceState A) (session : PresenceSession)
    (present : Dict String (PresenceEntry A)) (entry : PresenceEntry A)
    (at_sid : lookup sid ps.sessions ≡ some session)
    (as_pid : lookup stream session.streams ≡ some pid)
    (on_stream : lookup stream ps.streams ≡ some present)
    (under_pid : lookup pid present ≡ some entry) where
  abbrev gone : PresenceState A
  gone = record {
    streams = (drop_member stream sid pid entry present ps.streams).1;
    sessions = leave_stream stream sid session ps.sessions;
  }

  presence_remove-steps : presence_remove stream sid ps ≡ (
    ok (
        if (remove_session sid entry).0
        then some (record { kind = presence_leave_type; info = none; id = pid })
        else none),
    gone,
  )
  unfolding presence_remove remove_record drop_member
  presence_remove-steps = ground arith

  entry_at-gone :
      (s p : String)
      → entry_at s p gone ≡ (if stream == s && pid == p then left sid entry else entry_at s p ps)
  entry_at-gone = entry_at-drop_member stream sid pid entry present ps.streams on_stream

  joined_as-gone :
      (t s : String)
      → joined_as t s gone ≡ (if sid == t && stream == s then none else joined_as t s ps)
  joined_as-gone = joined_as-leave_stream stream sid session ps.sessions at_sid

  here : entry_at stream pid ps ≡ some entry
  here = rw on_stream under_pid

  joined : joined_as sid stream ps ≡ some pid
  joined = rw at_sid as_pid

  gone-IsPresence : IsPresence ps → IsPresence gone
  gone-IsPresence v =
      without-IsPresence stream sid pid ps entry gone here joined entry_at-gone joined_as-gone v

  event-gone :
      (if (remove_session sid entry).0
        then some (record { kind = presence_leave_type; info = none; id = pid })
        else none)
      ≡ leave_event pid (entry_at stream pid gone)
  event-gone = rw (entry_at-gone stream pid, ==_refl stream, ==_refl pid) (ground arith)

  leaves :
      IsPresence ps
      → let r = presence_remove stream sid ps in
        IsPresence r.1
        × (r.0 ≡ ok (leave_event pid (entry_at stream pid r.1)))
        × ((t s : String)
            → joined_as t s r.1 ≡ (if sid == t && stream == s then none else joined_as t s ps))
  leaves v = rw presence_remove-steps (gone-IsPresence v, ap ok event-gone, joined_as-gone)

-- A session that is on the stream under a presence ID leaves it: the two indexes stay in
-- agreement, no other membership changes, and the event is a leave exactly when no session is left
-- there under this ID.
pub presence_remove_leaves :
    {A : Type 0} (stream sid pid : String) (ps : PresenceState A)
    → IsPresence ps
    → joined_as sid stream ps ≡ some pid
    → let r = presence_remove stream sid ps in
      IsPresence r.1
      × (r.0 ≡ ok (leave_event pid (entry_at stream pid r.1)))
      × ((t s : String)
          → joined_as t s r.1 ≡ (if sid == t && stream == s then none else joined_as t s ps))
presence_remove_leaves stream sid pid ps v on =
    let (session, at_sid, as_pid) =
      or_none-some (lookup sid ps.sessions) (λ x. lookup stream x.streams) on in
    let (entry, at_pid) = holds-some sid (entry_at stream pid ps) ((v.agree sid stream pid).1 on) in
    let (present, on_stream, under_pid) =
      or_none-some (lookup stream ps.streams) (λ m. lookup pid m) at_pid in
    leaves stream sid pid ps session present entry at_sid as_pid on_stream under_pid v
