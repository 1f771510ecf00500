-- ===== src/StreamsController/Granted.antt =====
-- Which stream a client gets from the controller of streams/controller.go, and on what grounds.
use anycable_go.Prelude.{
  Bool, Bool-cases, List, Option, Option-cases, String, [], arith, false, if◌then◌else◌, inl, inr,
  none, not, ok, refl, some, true, ℕ, ◌&&◌, ◌==◌, ◌||◌, ◌∷◌, ◌≡◌, string_eq, nat_eq,
}
use anycable_go.Common.Commands.{CommandResult, success, failure}
use anycable_go.StreamsController.{
  Controller, Config, Verified, name, invalid, not_a_name, SubscribeRequest, subscribe,
  new_streams_controller, answer, confirmed, resolve, is_present, stream_of, rejected,
}

-- The stream of a verified name.
abbrev pub verdict : Verified → Option String
verdict (name stream) = some stream
verdict invalid = none
verdict not_a_name = none

-- The grounds: a name in the open where public streams are allowed, or else a signed name that the
-- key verifies.
abbrev pub granted :
    Config → (String → String → Verified) → Option (String × String) → Option String
granted conf verify none = none
granted conf verify (some (plain, signed)) =
    if not (plain == "")
    then (if conf.public_streams then some plain else none)
    else if signed == ""
    then none
    else verdict (verify conf.secret signed)

abbrev pub stream_list : Option String → Option (List String)
stream_list none = none
stream_list (some stream) = some (stream ∷ [])

abbrev pub status_for : Option String → ℕ
status_for none = failure
status_for (some stream) = success

module _ (c : Controller) (identifier : String) (r : SubscribeRequest) where
  answer-verdict :
      (v : Verified)
      → ((answer c identifier r v).streams ≡ stream_list (verdict v))
        × ((answer c identifier r v).status ≡ status_for (verdict v))
  unfolding answer confirmed
  answer-verdict (name stream) = (refl, refl)
  answer-verdict invalid = (refl, refl)
  answer-verdict not_a_name = (refl, refl)

module _ (conf : Config) (verify : String → String → Verified)
    (unmarshal : String → Option (String × String)) (reject confirm : String → String) where
  abbrev c : Controller
  c = new_streams_controller conf verify unmarshal reject confirm

  abbrev Grants : String → Option String → Type 0
  Grants identifier grant =
      (r : CommandResult) × (e : Bool) × (subscribe c identifier ≡ ok (r, e))
      × (r.streams ≡ stream_list grant)
      × (r.status ≡ status_for grant)

  refused :
      (identifier : String)
      → unmarshal identifier ≡ none
      → subscribe c identifier ≡ ok (rejected c identifier, true)
  unfolding subscribe new_streams_controller resolve
  refused identifier unread = rw (subscribe, resolve, unread) refl

  Grants-read :
      (identifier plain signed : String)
      → (conf.secret == "") ≡ false
      → unmarshal identifier ≡ some (plain, signed)
      → Grants identifier (granted conf verify (some (plain, signed)))
  unfolding subscribe new_streams_controller resolve is_present stream_of
  Grants-read identifier plain signed key e =
      let request : SubscribeRequest = record {
        stream_name = plain;
        signed_stream_name = signed;
        whisper = conf.whispers || not (plain == "");
        presence = conf.presences || not (plain == "");
      } in
      elim (Bool-cases (plain == "")) [
        | inl closed ↦
            let shut : (not conf.public_streams && not (plain == "")) ≡ false =
              ground (arith, closed) in
            elim (Bool-cases (signed == "")) [
              | inl unsigned ↦
                  rw (subscribe, resolve, e, shut, is_present, closed, unsigned)
                    (rejected c identifier, true, refl, refl, refl)
              | inr given ↦
                  let (streams, status) =
                    answer-verdict c identifier request (verify conf.secret signed) in
                  rw
                    (
                      subscribe, resolve, e, shut, is_present, closed, given, stream_of, c,
                      new_streams_controller, key,
                    )
                    (_, false, refl, streams, status)
            ]
        | inr open_name ↦ elim (Bool-cases conf.public_streams) [
          | inl allowed ↦
              let (streams, status) = answer-verdict c identifier request (name plain) in
              rw (subscribe, resolve, e, allowed, is_present, open_name, stream_of)
                (_, false, refl, streams, status)
          | inr closed_off ↦
              rw (subscribe, resolve, e, closed_off, open_name)
                (rejected c identifier, true, refl, refl, refl)
        ]
      ]

  -- With a key that is not empty, every subscription is answered, and never by a panic: it is
  -- confirmed, to the one stream that the identifier is granted, exactly when there are grounds
  -- for one, and else it is rejected without a stream.
  pub subscribe-granted :
      (identifier : String)
      → (conf.secret == "") ≡ false
      → Grants identifier (granted conf verify (unmarshal identifier))
  subscribe-granted identifier key = elim (Option-cases (unmarshal identifier)) [
    | inl unread ↦ rw unread (rejected c identifier, true, refused identifier unread, refl, refl)
    | inr ((plain, signed), e) ↦ rw e (Grants-read identifier plain signed key e)
  ]
