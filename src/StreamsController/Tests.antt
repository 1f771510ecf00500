-- ===== src/StreamsController/Tests.antt =====
-- The controller at a concrete configuration: signed streams alone.
use anycable_go.Prelude.{
  Bool, Option, String, false, refl, if◌then◌else◌, ok, some, true, ◌==◌, ◌≡◌, string_eq, nat_eq,
}
use anycable_go.StreamsController
use anycable_go.StreamsController.{Config, Verified, name, invalid, new_streams_controller}
use anycable_go.StreamsController.Granted.{granted, stream_list, status_for, subscribe-granted}
use anycable_go.Common.Commands.{CommandResult}

abbrev conf : Config
conf = record { secret = "key"; public_streams = false; whispers = true; presences = false }

abbrev verify : String → String → Verified
verify key signed = if signed == "chat--signed" then name "chat" else invalid

abbrev unmarshal : String → Option (String × String)
unmarshal identifier = some ("", identifier)

abbrev same : String → String
same text = text

subscribe-granted_example :
    (r : CommandResult) × (e : Bool) × (StreamsController.subscribe
        (new_streams_controller conf verify unmarshal same same)
        "chat--signed"
      ≡ ok (r, e))
    × (r.streams ≡ stream_list (granted conf verify (unmarshal "chat--signed")))
    × (r.status ≡ status_for (granted conf verify (unmarshal "chat--signed")))
subscribe-granted_example = subscribe-granted conf verify unmarshal same same "chat--signed" refl
