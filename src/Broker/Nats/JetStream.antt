-- ===== src/Broker/Nats/JetStream.antt =====
-- The calls that broker/nats.go makes of NATS JetStream, and how it repeats those that fail.
pub mod Repeated
use anycable_go.Prelude.{
  Bool, List, Option, Result, String, err, false, ok, panic, suc, true, zero, ℕ, ◌+◌, string_eq,
  nat_eq,
}

-- The errors that the code tells apart. `key_exists` are those whose text has "key exists" in it.
pub data JsError : Type 0 where
  deadline_exceeded : JsError
  no_stream_response : JsError
  stream_name_in_use : JsError
  key_exists : JsError
  key_not_found : JsError
  no_keys_found : JsError
  other : String → JsError

-- A message of a stream: `metadata` is its sequence number and its time in seconds, where they can
-- be read.
pub record JsMsg : Type 0 where
  pub body : String
  pub metadata : Option (ℕ × ℕ)

-- The service, with its state `J` at the time of each call, its consumers `C` and its buckets `B`.
-- An operation without a result gives its error, if any; where the code discards the error there is
-- none. Times to live are milliseconds.
pub record JetStream (J C B : Type 0) : Type 0 where
  pub create_stream : String → ℕ → ℕ → J → Option JsError × J
  pub publish : String → String → J → Result JsError ℕ × J
  pub create_consumer : String → J → Result JsError C × J
  pub fetch_no_wait : C → ℕ → J → Result JsError (List JsMsg) × J
  pub consume : C → J → Option JsError × J
  pub delete_consumer : String → C → J → J
  pub stream_names : String → J → List String × J
  pub delete_stream : String → J → J
  pub create_key_value : String → ℕ → J → Result JsError B × J
  pub key_value : String → J → Result JsError B × J
  pub bucket_ttl : B → J → Result JsError ℕ × J
  pub delete_key_value : String → J → Option JsError × J
  pub create_key : B → String → String → J → Option JsError × J
  pub put_key : B → String → String → J → Option JsError × J
  pub get_key : B → String → J → Result JsError String × J
  pub keys : B → J → Result JsError (List String) × J
  pub delete_key : B → String → J → J
  pub watch_key : B → String → J → Option JsError × J

-- The errors after which an operation is tried again.
abbrev pub is_temporary : JsError → Bool
is_temporary deadline_exceeded = true
is_temporary no_stream_response = true
is_temporary e = false

pub should_retry_on_error : {A : Type 0} → Result JsError A → Bool
should_retry_on_error (err e) = is_temporary e
should_retry_on_error (ok a) = false
should_retry_on_error panic = false

-- `if n.shouldRetryOnError(err, &attempts, cooldown) { goto … }`: the operation, which is given
-- the time, is tried again after each temporary error, up to `attempts` times.
pub retry_on_error :
    {S A : Type 0} → ℕ → (ℕ → S → Result JsError A × S) → ℕ → ℕ → S → Result JsError A × S
unfolding should_retry_on_error
retry_on_error cooldown op zero now s = op now s
retry_on_error cooldown op (suc attempts) now s =
    let (r, s') = op now s in
    elim (should_retry_on_error r) [
      | true ↦ retry_on_error cooldown op attempts (now + cooldown) s'
      | false ↦ (r, s')
    ]
