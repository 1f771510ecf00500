-- ===== src/Broker/Nats/Buckets.antt =====
-- The buckets of broker/nats.go, the epoch that all nodes share, and the initialization of JetStream.
-- Times to live are milliseconds.
pub mod Fetched
pub mod Initialized
mod Tests
use anycable_go.Prelude.{
  Bool, Option, Result, String, err, false, if◌then◌else◌, ltb, none, ok, panic, some, suc, true,
  zero, ℕ, ◌*◌, ◌==◌, string_eq, nat_eq,
}
use anycable_go.Broker.Memory.{Config}
use anycable_go.Broker.Nats.JetStream.{
  JetStream, JsError, deadline_exceeded, stream_name_in_use, key_exists, is_temporary,
}
use anycable_go.Broker.Nats.Streams.{Nats, failing}
use anycable_go.Broker.Nats.Sessions.{epoch_bucket, epoch_key, at_service}
use anycable_go.Broker.Nats.Publish.{write_epoch}

abbrev pub kv_bucket : String
kv_bucket = "_anycable_"

-- What a round of fetchBucketWithTTL ends with: a result, the same round once more, or that after a
-- timeout, which uses up an attempt.
pub data Round (B : Type 0) : Type 0 where
  ends : Result JsError B → Round B
  recreates : Round B
  times_out : JsError → Round B

module _ {J C B : Type 0} (js : JetStream J C B) where
  -- A bucket that was there is deleted if it has another time to live.
  pub check_ttl : String → ℕ → B → J → Round B × J
  check_ttl key ttl bucket j =
      let (status, j1) = js.bucket_ttl bucket j in
      elim status [
        | err e ↦ (ends (err e), j1)
        | panic ↦ (ends panic, j1)
        | ok old ↦
            if old == ttl
            then (ends (ok bucket), j1)
            else (let (e, j2) = js.delete_key_value key j1 in
                elim e [ some e ↦ (ends (err e), j2) | none ↦ (recreates, j2) ])
      ]

  pub existing_bucket : String → ℕ → J → Round B × J
  unfolding check_ttl
  existing_bucket key ttl j =
      let (found, j1) = js.key_value key j in
      elim found [
        | ok bucket ↦ check_ttl key ttl bucket j1
        | err e ↦ (ends (err e), j1)
        | panic ↦ (ends panic, j1)
      ]

  -- What follows on the answer to CreateKeyValue. `new_bucket` turns false with the first answer
  -- that the bucket is there, and stays so: a bucket that is made after that is checked too.
  abbrev pub after_create : String → ℕ → Bool → Result JsError B → J → Round B × J
  after_create key ttl new_bucket (ok bucket) j =
      if new_bucket then (ends (ok bucket), j) else check_ttl key ttl bucket j
  after_create key ttl new_bucket (err deadline_exceeded) j = (times_out deadline_exceeded, j)
  after_create key ttl new_bucket (err stream_name_in_use) j = existing_bucket key ttl j
  after_create key ttl new_bucket (err e) j = (ends (err e), j)
  after_create key ttl new_bucket panic j = (ends panic, j)

  pub bucket_round : String → ℕ → Bool → J → Round B × J
  unfolding existing_bucket
  bucket_round key ttl new_bucket j =
      let (created, j1) = js.create_key_value key ttl j in
      after_create key ttl new_bucket created j1

  -- `none`: the fuel does not suffice.
  pub fetch_bucket_from : ℕ → ℕ → String → ℕ → Bool → J → Option (Result JsError B × J)
  unfolding bucket_round
  fetch_bucket_from zero attempts key ttl new_bucket j = none
  fetch_bucket_from (suc fuel) attempts key ttl new_bucket j =
      let (r, j') = bucket_round key ttl new_bucket j in
      elim r [
        | ends result ↦ some (result, j')
        | recreates ↦ fetch_bucket_from fuel attempts key ttl false j'
        | times_out e ↦ elim attempts [
          | zero ↦ some (err e, j')
          | suc k ↦ fetch_bucket_from fuel k key ttl new_bucket j'
        ]
      ]

  pub fetch_bucket_with_ttl : ℕ → String → ℕ → J → Option (Result JsError B × J)
  unfolding fetch_bucket_from
  fetch_bucket_with_ttl fuel key ttl j = fetch_bucket_from fuel 5 key ttl true j

-- What a round of calculateEpoch ends with: a result, or the error with which the key was not made.
pub data EpochTry : Type 0 where
  settled : Result JsError String → EpochTry
  refused : JsError → EpochTry

abbrev pub is_again : EpochTry → Bool
is_again (settled r) = false
is_again (refused e) = is_temporary e

abbrev pub conclude : EpochTry → Result JsError String
conclude (settled r) = r
conclude (refused e) = err e

module _ {J C B : Type 0} (js : JetStream J C B) where
  -- The epoch is the new one, where none is kept yet.
  pub try_epoch : B → String → J → EpochTry × J
  try_epoch kv fresh j =
      let (made, j1) = js.create_key kv epoch_key fresh j in
      elim made [
        | none ↦ (settled (ok fresh), j1)
        | some key_exists ↦ let (r, j2) = js.get_key kv epoch_key j1 in (settled r, j2)
        | some e ↦ (refused e, j1)
      ]

  abbrev pub ten_times : Config → ℕ
  ten_times c =
      10 * ((if ltb c.history_ttl c.sessions_ttl then c.sessions_ttl else c.history_ttl) * 1000)

  pub epoch_round : ℕ → String → Nats J C B → Option (EpochTry × Nats J C B)
  unfolding try_epoch
  epoch_round fuel fresh n =
      elim (fetch_bucket_with_ttl js fuel epoch_bucket (ten_times n.config) n.outside.service) [
        | none ↦ none
        | some fetched ↦ elim fetched.0 [
          | err e ↦ some (settled (err e), at_service fetched.1 n)
          | panic ↦ some (settled panic, at_service fetched.1 n)
          | ok kv ↦
              let (r, j) = try_epoch kv fresh fetched.1 in
              some (r, record (at_service j n) { epoch_kv = some kv })
        ]
      ]

  -- `attempts` is how often a temporary error is passed over.
  pub calculate_epoch_from :
      ℕ → ℕ → String → Nats J C B → Option (Result JsError String × Nats J C B)
  unfolding epoch_round
  calculate_epoch_from fuel zero fresh n = elim (epoch_round fuel fresh n) [
    | none ↦ none
    | some r ↦ some (conclude r.0, r.1)
  ]
  calculate_epoch_from fuel (suc attempts) fresh n = elim (epoch_round fuel fresh n) [
    | none ↦ none
    | some r ↦ elim (is_again r.0) [
      | true ↦ calculate_epoch_from fuel attempts fresh r.1
      | false ↦ some (conclude r.0, r.1)
    ]
  ]

  -- `fresh` is the new epoch.
  pub calculate_epoch : ℕ → String → Nats J C B → Option (Result JsError String × Nats J C B)
  unfolding calculate_epoch_from
  calculate_epoch fuel fresh n = calculate_epoch_from fuel 5 fresh n

  -- The watcher's error is only logged.
  pub watch_epoch : Nats J C B → Nats J C B
  watch_epoch n = elim n.epoch_kv [
    | none ↦ n
    | some kv ↦ at_service (js.watch_key kv epoch_key n.outside.service).1 n
  ]

  -- What comes from the watcher.
  pub epoch_updated : String → Nats J C B → Nats J C B
  epoch_updated v n = if n.epoch == v then n else write_epoch v n

  -- A client of JetStream is always made, and the memory broker always starts.
  pub init_jet_stream : ℕ → String → Nats J C B → Option (Result JsError Unit × Nats J C B)
  unfolding calculate_epoch watch_epoch
  init_jet_stream fuel fresh n =
      elim (fetch_bucket_with_ttl js fuel kv_bucket (n.config.sessions_ttl * 1000)
        n.outside.service) [
          | none ↦ none
          | some fetched ↦ elim fetched.0 [
            | err e ↦ some (err e, at_service fetched.1 n)
            | panic ↦ some (panic, at_service fetched.1 n)
            | ok kv ↦
                elim (calculate_epoch fuel fresh
                  (record (at_service fetched.1 n) { kv = some kv })) [
                    | none ↦ none
                    | some r ↦ elim r.0 [
                      | ok epoch ↦ some (ok tt, watch_epoch (write_epoch epoch r.1))
                      | err e ↦ some (err e, r.1)
                      | panic ↦ some (panic, r.1)
                    ]
                  ]
          ]
        ]

  -- The initialization is repeated after an error, with the new epochs that are drawn for it.
  pub init_jet_stream_from :
      ℕ → ℕ → (ℕ → String) → Nats J C B → Option (Result JsError Unit × Nats J C B)
  unfolding init_jet_stream
  init_jet_stream_from fuel zero fresh n = init_jet_stream fuel (fresh 0) n
  init_jet_stream_from fuel (suc attempts) fresh n =
      elim (init_jet_stream fuel (fresh (suc attempts)) n) [
        | none ↦ none
        | some r ↦ elim r.0 [
          | err e ↦ init_jet_stream_from fuel attempts fresh r.1
          | ok _ ↦ some r
          | panic ↦ some r
        ]
      ]

  pub init_jet_stream_with_retry :
      ℕ → (ℕ → String) → Nats J C B → Option (Result JsError Unit × Nats J C B)
  unfolding init_jet_stream_from
  init_jet_stream_with_retry fuel fresh n = init_jet_stream_from fuel 5 fresh n
