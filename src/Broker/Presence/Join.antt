-- ===== src/Broker/Presence/Join.antt =====
-- PresenceAdd of broker/memory.go as a whole: its event, its error, and who is present afterwards.
use anycable_go.Prelude.{
  ==_iff, Option, String, [], ap, arith, err, false, if◌then◌else◌, none, ok, refl, some, true,
  ◌&&◌, ◌==◌, ◌∙◌, ◌≡◌, string_eq, nat_eq,
}
use anycable_go.Prelude.Dict.{lookup, lookup-put}
use anycable_go.Broker.Presence.Add.{
  conflict, entry_at-make_room, joined_as-make_room, write_join-IsPresence, joined_as-write_join,
}
use anycable_go.Broker.Presence.View.{IsPresence, entry_at, same-IsPresence, joined_as}
use anycable_go.Broker.Presence.{
  value_or, mismatch, PresenceEntry, PresenceState, PresenceEvent, make_room, write_join,
  presence_join_type, no_streams, presence_add, id_mismatch,
}

-- The event for a presence ID: it joins with its first session.
abbrev pub join_event :
    {A : Type 0} → String → Option A → Option (PresenceEntry A) → Option (PresenceEvent A)
join_event pid info none = some (record { kind = presence_join_type; info = info; id = pid })
join_event pid info (some entry) = none

module _ {A : Type 0} (stream sid pid : String) (info : Option A) (ps : PresenceState A) where
  mismatch-conflict :
      mismatch stream sid pid (make_room stream sid ps) ≡ conflict (joined_as sid stream ps) pid
  unfolding mismatch make_room value_or lookup
  mismatch-conflict = ground (arith, lookup-put sid sid no_streams ps.sessions, ==_iff sid sid)

  write_join-event :
      (write_join stream sid pid info (make_room stream sid ps)).0
      ≡ join_event pid info (entry_at stream pid ps)
  unfolding write_join make_room value_or lookup
  write_join-event = ground (arith, lookup-put stream stream [] ps.streams, ==_iff stream stream)

  make_room-IsPresence : IsPresence ps → IsPresence (make_room stream sid ps)
  make_room-IsPresence v =
      same-IsPresence ps (make_room stream sid ps) (entry_at-make_room stream sid ps)
        (joined_as-make_room stream sid ps) v

  -- A session that is not on the stream under another presence ID joins it under this one: the two
  -- indexes stay in agreement, no other membership changes, and the event is a join exactly when
  -- no session was there under this ID.
  pub presence_add_joins :
      IsPresence ps
      → conflict (joined_as sid stream ps) pid ≡ false
      → let r = presence_add stream sid pid info ps in
        IsPresence r.1
        × (r.0 ≡ ok (join_event pid info (entry_at stream pid ps)))
        × ((t s : String)
            → joined_as t s r.1 ≡ (if sid == t && stream == s then some pid else joined_as t s ps))
  presence_add_joins v free =
      let room = make_room stream sid ps in
      let fits : mismatch stream sid pid room ≡ false = mismatch-conflict ∙ free in
      let free' : conflict (joined_as sid stream room) pid ≡ false = rw joined_as-make_room free in
      unfold presence_add in
      rw fits (
        write_join-IsPresence stream sid pid info room (make_room-IsPresence v) free',
        ap ok write_join-event,
        λ t s.
            joined_as-write_join stream sid pid info room t s
            ∙ ap (λ o. if sid == t && stream == s then some pid else o)
                (joined_as-make_room stream sid ps t s),
      )

  -- A session that is on the stream under another presence ID is refused: who is present, and
  -- with which record, stays as it was.
  pub presence_add_refuses :
      IsPresence ps
      → conflict (joined_as sid stream ps) pid ≡ true
      → let r = presence_add stream sid pid info ps in
        IsPresence r.1
        × (r.0 ≡ err id_mismatch)
        × ((s p : String) → entry_at s p r.1 ≡ entry_at s p ps)
        × ((t s : String) → joined_as t s r.1 ≡ joined_as t s ps)
  presence_add_refuses v taken =
      let room = make_room stream sid ps in
      let clash : mismatch stream sid pid room ≡ true = mismatch-conflict ∙ taken in
      unfold presence_add in
      rw clash (
        make_room-IsPresence v,
        refl,
        entry_at-make_room stream sid ps,
        joined_as-make_room stream sid ps,
      )
