-- ===== src/Broker/Tests/Overdue.antt =====
-- Presence at a concrete input: two sessions under one ID, of which one is overdue.
use anycable_go.Prelude.{
  ==_iff, String, [], arith, contains, if◌then◌else◌, none, refl, some, ◌∷◌, ◌≡◌, string_eq, nat_eq,
}
use anycable_go.Prelude.Dict.{lookup}
use anycable_go.Common.{PresenceEvent}
use anycable_go.Broker.Presence.{PresenceState, PresenceEntry}
use anycable_go.Broker.Presence.View.{IsPresence, joined_as}
use anycable_go.Broker.Presence.Expiry.{overdue, expire_presence}
use anycable_go.Broker.Presence.Expiry.Expired.{expire_presence-IsPresence}

abbrev ann : PresenceEntry String
ann = record { info = some "Ann"; id = "7"; sessions = "s1" ∷ "s2" ∷ [] }

abbrev crowd : PresenceState String
crowd = record {
  streams = ("chat", (("7", ann) ∷ [])) ∷ [];
  sessions =
      ("s1", record { streams = ("chat", "7") ∷ []; deadline = 5 })
      ∷ ("s2", record { streams = ("chat", "7") ∷ []; deadline = 0 })
      ∷ [];
}

abbrev to_json : PresenceEvent String → String
to_json e = e.id

crowd-IsPresence : IsPresence crowd
unfolding lookup contains
crowd-IsPresence = record {
  agree = λ sid stream pid.
      ground (arith, ==_iff "chat" stream, ==_iff "7" pid, ==_iff "s1" sid, ==_iff "s2" sid);
  named = λ stream pid entry e. ground (arith, ==_iff "7" pid);
}

expire_presence-IsPresence_example :
    let qs = (expire_presence to_json 9 crowd).1 in
    IsPresence qs
    × ((t s : String)
        → joined_as t s qs
          ≡ (if contains t (overdue 9 crowd.sessions) then none else joined_as t s crowd))
unfolding lookup
expire_presence-IsPresence_example =
    expire_presence-IsPresence to_json 9 crowd ((refl, tt), ((refl, tt), tt)) crowd-IsPresence
