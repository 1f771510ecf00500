-- ===== src/Broker/Tests/Members.antt =====
-- Presence at concrete inputs: a session that joins a stream and leaves it.
use anycable_go.Prelude.{
  String, false, if◌then◌else◌, none, none-ne-some, ok, refl, some, ◌&&◌, ◌==◌, ◌≡◌, string_eq,
  nat_eq,
}
use anycable_go.Prelude.Dict.{lookup}
use mathlib.Core.Bool.{false≢true}
use anycable_go.Broker.Presence.Leave.{leave_event, presence_remove_leaves}
use anycable_go.Broker.Presence.Join.{join_event, presence_add_joins}
use anycable_go.Broker.Presence.Add.{conflict}
use anycable_go.Broker.Presence.View.{IsPresence, joined_as, entry_at}
use anycable_go.Broker.Presence.{PresenceState, presence_add, presence_remove, new_presence_state}

abbrev nobody : PresenceState String
nobody = new_presence_state String

nobody-IsPresence : IsPresence nobody
unfolding lookup
nobody-IsPresence = record {
  agree = λ sid stream pid. (λ h. absurd (false≢true h), λ h. absurd (none-ne-some h));
  named = λ stream pid entry e. absurd (none-ne-some e);
}

abbrev one : PresenceState String
one = (presence_add "chat" "s1" "7" (some "Ann") nobody).1

free : conflict (joined_as "s1" "chat" nobody) "7" ≡ false
unfolding lookup
free = refl

presence_add_joins_example :
    IsPresence one
    × ((presence_add "chat" "s1" "7" (some "Ann") nobody).0
        ≡ ok (join_event "7" (some "Ann") (entry_at "chat" "7" nobody)))
    × ((t s : String)
        → joined_as t s one ≡ (if "s1" == t && "chat" == s then some "7" else joined_as t s nobody))
presence_add_joins_example =
    presence_add_joins "chat" "s1" "7" (some "Ann") nobody nobody-IsPresence free

one-IsPresence : IsPresence one
one-IsPresence = presence_add_joins_example.0

one-joined : joined_as "s1" "chat" one ≡ some "7"
one-joined = presence_add_joins_example.2 "s1" "chat"

presence_remove_leaves_example :
    let r = presence_remove "chat" "s1" one in
    IsPresence r.1
    × (r.0 ≡ ok (leave_event "7" (entry_at "chat" "7" r.1)))
    × ((t s : String)
        → joined_as t s r.1 ≡ (if "s1" == t && "chat" == s then none else joined_as t s one))
presence_remove_leaves_example =
    presence_remove_leaves "chat" "s1" "7" one one-IsPresence one-joined
