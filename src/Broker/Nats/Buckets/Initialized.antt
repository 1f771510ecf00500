-- ===== src/Broker/Nats/Buckets/Initialized.antt =====
-- initJetStreamWithRetry of broker/nats.go ends.
use anycable_go.Prelude.{
  Bool-cases, Option, Result, Result-cases, String, inl, inr, refl, some, suc, zero, ℕ, ◌*◌, ◌≡◌,
  ◌≤◌, string_eq, nat_eq,
}
use anycable_go.Broker.Nats.JetStream.{JetStream, JsError}
use anycable_go.Broker.Nats.Streams.{Nats}
use anycable_go.Broker.Nats.Buckets.{
  epoch_round, calculate_epoch_from, calculate_epoch, init_jet_stream, init_jet_stream_from,
  init_jet_stream_with_retry, is_again, kv_bucket, ten_times, at_service,
}
use anycable_go.Broker.Nats.Buckets.Fetched.{IsUndisturbed, fetch_bucket_ends}
use anycable_go.Broker.Nats.Sessions.{epoch_bucket}

abbrev IsDone : {A : Type 0} → Option A → Type 0
IsDone {A = A} r = (a : A) × (r ≡ some a)

module _ {J C B : Type 0} (js : JetStream J C B) (fuel : ℕ) (enough : 7 ≤ fuel)
    (Settled : String → ℕ → J → Type 0) (Of : String → B → Type 0)
    (calm : (key : String) (ttl : ℕ) → IsUndisturbed js key ttl (Settled key ttl) (Of key)) where
  epoch_round_ends : (fresh : String) (n : Nats J C B) → IsDone (epoch_round js fuel fresh n)
  unfolding epoch_round
  epoch_round_ends fresh n =
      let ttl = ten_times js n.config in
      let (r, j, done) =
        fetch_bucket_ends js epoch_bucket ttl (Settled epoch_bucket ttl) (Of epoch_bucket)
          (calm epoch_bucket ttl) fuel n.outside.service enough in
      elim (Result-cases r) [
        | inl (kv, e) ↦ rw (done, e, epoch_round) (_, refl)
        | inr (inl (x, e)) ↦ rw (done, e, epoch_round) (_, refl)
        | inr (inr e) ↦ rw (done, e, epoch_round) (_, refl)
      ]

  calculate_epoch_ends :
      (attempts : ℕ) (fresh : String) (n : Nats J C B)
      → IsDone (calculate_epoch_from js fuel attempts fresh n)
  unfolding calculate_epoch_from
  calculate_epoch_ends zero fresh n =
      let (r, done) = epoch_round_ends fresh n in rw (done, calculate_epoch_from) (_, refl)
  calculate_epoch_ends (suc k) fresh n =
      let (r, done) = epoch_round_ends fresh n in
      elim (Bool-cases (is_again r.0)) [
        | inl again ↦ rw (done, again, calculate_epoch_from) (calculate_epoch_ends k fresh r.1)
        | inr last ↦ rw (done, last, calculate_epoch_from) (_, refl)
      ]

  init_jet_stream_ends :
      (fresh : String) (n : Nats J C B) → IsDone (init_jet_stream js fuel fresh n)
  unfolding init_jet_stream calculate_epoch
  init_jet_stream_ends fresh n =
      let ttl = n.config.sessions_ttl * 1000 in
      let (r, j, done) =
        fetch_bucket_ends js kv_bucket ttl (Settled kv_bucket ttl) (Of kv_bucket)
          (calm kv_bucket ttl) fuel n.outside.service enough in
      elim (Result-cases r) [
        | inl (kv, e) ↦
            let (x, epoch) =
              calculate_epoch_ends 5 fresh (record (at_service j n) { kv = some kv }) in
            elim (Result-cases x.0) [
              | inl (v, f) ↦ rw (done, e, epoch, f, init_jet_stream) (_, refl)
              | inr (inl (v, f)) ↦ rw (done, e, epoch, f, init_jet_stream) (_, refl)
              | inr (inr f) ↦ rw (done, e, epoch, f, init_jet_stream) (_, refl)
            ]
        | inr (inl (x, e)) ↦ rw (done, e, init_jet_stream) (_, refl)
        | inr (inr e) ↦ rw (done, e, init_jet_stream) (_, refl)
      ]

  init_jet_stream_from_ends :
      (attempts : ℕ) (fresh : ℕ → String) (n : Nats J C B)
      → IsDone (init_jet_stream_from js fuel attempts fresh n)
  unfolding init_jet_stream_from
  init_jet_stream_from_ends zero fresh n = init_jet_stream_ends (fresh 0) n
  init_jet_stream_from_ends (suc k) fresh n =
      let (r, done) = init_jet_stream_ends (fresh (suc k)) n in
      elim (Result-cases r.0) [
        | inl (x, e) ↦ rw (done, e, init_jet_stream_from) (_, refl)
        | inr (inl (x, e)) ↦
            rw (done, e, init_jet_stream_from) (init_jet_stream_from_ends k fresh r.1)
        | inr (inr e) ↦ rw (done, e, init_jet_stream_from) (_, refl)
      ]

  -- When the service makes a bucket with the time to live that it is asked for, and no other client
  -- gives a bucket another one once a call for it has deleted it and until that call ends, the
  -- initialization of JetStream ends, with the result or with an error, whatever the service
  -- answers: a bucket is asked for seven times at most in each of the rounds, which are six of the
  -- epoch in each of the six of the initialization.
  pub init_jet_stream_with_retry_ends :
      (fresh : ℕ → String) (n : Nats J C B)
      → (r : Result JsError Unit) × (n' : Nats J C B) × (init_jet_stream_with_retry js fuel fresh n
          ≡ some (r, n'))
  unfolding init_jet_stream_with_retry
  init_jet_stream_with_retry_ends fresh n =
      let (x, done) = init_jet_stream_from_ends 5 fresh n in (x.0, x.1, done)
