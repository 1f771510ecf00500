-- ===== src/Broker/Nats/Sessions.antt =====
-- The sessions of broker/nats.go, which are kept in a bucket of JetStream, and Reset.
pub mod Kept
use anycable_go.Prelude.{
  List, Option, Result, String, [], err, none, ok, panic, some, ◌*◌, ◌++◌, ◌∷◌, string_eq, nat_eq,
}
use Prim.Native.String
use anycable_go.Broker.Nats.JetStream.{JetStream, JsError, key_not_found, no_keys_found}
use anycable_go.Broker.Nats.Streams.{Nats, Outside}
use anycable_go.Broker.Nats.Publish.{
  NatsError, ready_error, no_value, from_service, no_presence, write_epoch,
}
use anycable_go.Common.{PresenceEvent, PresenceInfo}

abbrev pub sessions_prefix : String
sessions_prefix = ""

abbrev pub session_key : String → String
session_key sid = String.◌++◌ sessions_prefix sid

abbrev pub epoch_bucket : String
epoch_bucket = "_anycable_epoch_"

abbrev pub epoch_key : String
epoch_key = "_epoch_"

-- The error of a call, and no value.
abbrev pub outcome : Option JsError → Result NatsError Unit
outcome none = ok tt
outcome (some e) = err (from_service e)

-- A missing key is no error.
abbrev found_value : Result JsError String → Result NatsError (Option String)
found_value (ok text) = ok (some text)
found_value (err key_not_found) = ok none
found_value (err e) = err (from_service e)
found_value panic = panic

abbrev listed_keys : Result JsError (List String) → Result NatsError (List String)
listed_keys (ok ks) = ok ks
listed_keys (err no_keys_found) = ok []
listed_keys (err e) = err (from_service e)
listed_keys panic = panic

module _ {J C B : Type 0} where
  abbrev pub at_service : J → Nats J C B → Nats J C B
  at_service j n = record n { outside = record n.outside { service = j } }

  -- What an operation does with the bucket of sessions once JetStream is ready. The bucket is there
  -- by then; a nil one is a run-time panic.
  abbrev pub with_bucket :
      {A : Type 0} → (B → J → Result NatsError A × J) → Nats J C B → Result NatsError A × Nats J C B
  unfolding ready_error
  with_bucket f n = elim (ready_error n.ready) [
    | some e ↦ (err e, n)
    | none ↦ elim n.kv [
      | none ↦ (panic, n)
      | some kv ↦ let (r, j) = f kv n.outside.service in (r, at_service j n)
    ]
  ]

module _ {J C B : Type 0} (js : JetStream J C B) where
  -- `cached` is what the session's ToCacheEntry gives.
  pub commit_in :
      {E : Type 0} → (E → String) → String → Result E String → B → J → Result NatsError Unit × J
  commit_in text sid (err e) kv j = (err (no_value (text e)), j)
  commit_in text sid panic kv j = (panic, j)
  commit_in text sid (ok data_) kv j =
      let (e, j') = js.put_key kv (session_key sid) data_ j in (outcome e, j')

  pub commit_session :
      {E : Type 0}
      → (E → String)
      → String
      → Result E String
      → Nats J C B
      → Result NatsError Unit × Nats J C B
  unfolding commit_in
  commit_session text sid cached n = with_bucket (commit_in text sid cached) n

  pub restore_session : String → Nats J C B → Result NatsError (Option String) × Nats J C B
  restore_session sid n =
      with_bucket (λ kv j. let (r, j') = js.get_key kv (session_key sid) j in (found_value r, j')) n

  -- The value is written again, which starts its time to live anew.
  pub finish_in : String → B → J → Result NatsError Unit × J
  finish_in sid kv j =
      let (r, j') = js.get_key kv (session_key sid) j in
      elim r [
        | ok text ↦ let (e, j2) = js.put_key kv (session_key sid) text j' in (outcome e, j2)
        | err e ↦ (err (from_service e), j')
        | panic ↦ (panic, j')
      ]

  pub finish_session : String → Nats J C B → Result NatsError Unit × Nats J C B
  unfolding finish_in
  finish_session sid n = with_bucket (finish_in sid) n

  pub delete_keys : B → List String → J → J
  delete_keys kv [] j = j
  delete_keys kv (k ∷ ks) j = delete_keys kv ks (js.delete_key kv k j)

  pub delete_streams : List String → J → J
  delete_streams [] j = j
  delete_streams (s ∷ ss) j = delete_streams ss (js.delete_stream s j)

  -- The streams are listed by the prefix of the sessions.
  pub reset_streams : J → J
  unfolding delete_streams
  reset_streams j =
      let (names, j') = js.stream_names (String.◌++◌ sessions_prefix "*") j in
      delete_streams names j'

  pub reset : Nats J C B → Result NatsError Unit × Nats J C B
  unfolding ready_error delete_keys reset_streams
  reset n = elim (ready_error n.ready) [
    | some e ↦ (err e, n)
    | none ↦ elim n.kv [
      | none ↦ (ok tt, at_service (reset_streams n.outside.service) n)
      | some kv ↦
          let (r, j) = js.keys kv n.outside.service in
          elim (listed_keys r) [
            | ok ks ↦ (ok tt, at_service (reset_streams (delete_keys kv ks j)) n)
            | err e ↦ (err e, at_service j n)
            | panic ↦ (panic, at_service j n)
          ]
    ]
  ]

  pub put_epoch : String → B → J → Result NatsError Unit × J
  put_epoch v bucket j = let (e, j') = js.put_key bucket epoch_key v j in (outcome e, j')

  pub set_epoch : String → Nats J C B → Result NatsError Unit × Nats J C B
  unfolding put_epoch
  set_epoch v n =
      let (b, j) = js.key_value epoch_bucket n.outside.service in
      elim b [
        | ok bucket ↦
            let (r, j') = put_epoch v bucket j in
            elim r [
              | ok _ ↦ (ok tt, write_epoch v (at_service j' n))
              | err e ↦ (err e, at_service j' n)
              | panic ↦ (panic, at_service j' n)
            ]
        | err e ↦ (err (from_service e), at_service j n)
        | panic ↦ (panic, at_service j n)
      ]

pub presence_add :
    {A : Type 0} → String → String → String → Option A → Result NatsError (PresenceEvent A)
presence_add stream sid pid info = err no_presence

pub presence_remove : {A : Type 0} → String → String → Result NatsError (PresenceEvent A)
presence_remove stream sid = err no_presence

pub presence_info : {A : Type 0} → String → Result NatsError (PresenceInfo A)
presence_info stream = err no_presence
