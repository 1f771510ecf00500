-- ===== src/Broker/Nats/Buckets/Fetched.antt =====
-- fetchBucketWithTTL of broker/nats.go ends.
use anycable_go.Prelude.{
  ==_refl, Bool, Bool-cases, Option, Option-cases, Result, Result-cases, String, arith, err, false,
  inl, inr, none, ok, panic, refl, some, suc, true, zero, ℕ, ◌+◌, ◌<◌, ◌==◌, ◌≡◌, ◌≤◌, ◌⊎◌,
  string_eq, nat_eq,
}
use anycable_go.Broker.Nats.JetStream.{
  JetStream, JsError, deadline_exceeded, stream_name_in_use, no_stream_response, key_exists,
  key_not_found, no_keys_found, other,
}
use anycable_go.Broker.Nats.Buckets.{
  Round, ends, recreates, times_out, check_ttl, existing_bucket, after_create, bucket_round,
  fetch_bucket_from, fetch_bucket_with_ttl,
}

-- No other client gives the bucket with this key another time to live once it was deleted: from the
-- deletion on, in the states `Settled`, the bucket, if it is there, has the one that is asked for.
-- `Of` are the handles of the bucket, which the service gives for its key.
pub record IsUndisturbed {J C B : Type 0} (js : JetStream J C B) (key : String) (ttl : ℕ)
    (Settled : J → Type 0) (Of : B → Type 0) : Type 0 where
  pub deleted :
      (j : J) → (js.delete_key_value key j).0 ≡ none → Settled (js.delete_key_value key j).1
  pub created : (j : J) → Settled j → Settled (js.create_key_value key ttl j).1
  pub created_of : (j : J) (b : B) → (js.create_key_value key ttl j).0 ≡ ok b → Of b
  pub found : (j : J) → Settled j → Settled (js.key_value key j).1
  pub found_of : (j : J) (b : B) → (js.key_value key j).0 ≡ ok b → Of b
  pub asked : (b : B) (j : J) → Of b → Settled j → Settled (js.bucket_ttl b j).1
  pub same_ttl :
      (b : B) (j : J) (old : ℕ) → Of b → Settled j → (js.bucket_ttl b j).0 ≡ ok old → old ≡ ttl

module _ {J C B : Type 0} (js : JetStream J C B) (key : String) (ttl : ℕ) (Settled : J → Type 0)
    (Of : B → Type 0) (calm : IsUndisturbed js key ttl Settled Of) where
  -- A round from a settled state does not delete the bucket, and leaves a settled state.
  abbrev Remains : Round B → J → Type 0
  Remains (ends r) j = Settled j
  Remains recreates j = ⊥
  Remains (times_out e) j = Settled j

  abbrev IsLast : Round B × J → Type 0
  IsLast p = Remains p.0 p.1

  -- A round that deletes the bucket leaves a settled state.
  abbrev Settles : Round B → J → Type 0
  Settles recreates j = Settled j
  Settles r j = Unit

  abbrev IsCalm : Round B × J → Type 0
  IsCalm p = Settles p.0 p.1

  Round-cases :
      (r : Round B)
      → ((x : Result JsError B) × (r ≡ ends x))
        ⊎ ((r ≡ recreates) ⊎ ((e : JsError) × (r ≡ times_out e)))
  Round-cases (ends x) = inl (x, refl)
  Round-cases recreates = inr (inl refl)
  Round-cases (times_out e) = inr (inr (e, refl))

  check_ttl-IsLast : (b : B) (j : J) → Of b → Settled j → IsLast (check_ttl js key ttl b j)
  unfolding check_ttl
  check_ttl-IsLast b j o s = elim (Result-cases (js.bucket_ttl b j).0) [
    | inl (old, e) ↦
        let same : (old == ttl) ≡ true = rw (calm.same_ttl b j old o s e) (==_refl ttl) in
        rw (e, same, check_ttl) (calm.asked b j o s)
    | inr (inl (x, e)) ↦ rw (e, check_ttl) (calm.asked b j o s)
    | inr (inr e) ↦ rw (e, check_ttl) (calm.asked b j o s)
  ]

  check_ttl-IsCalm : (b : B) (j : J) → IsCalm (check_ttl js key ttl b j)
  unfolding check_ttl
  check_ttl-IsCalm b j = elim (Result-cases (js.bucket_ttl b j).0) [
    | inl (old, e) ↦ elim (Bool-cases (old == ttl)) [
      | inl same ↦ rw (e, same, check_ttl) tt
      | inr changed ↦
          let j1 = (js.bucket_ttl b j).1 in
          elim (Option-cases (js.delete_key_value key j1).0) [
            | inl gone ↦ rw (e, changed, gone, check_ttl) (calm.deleted j1 gone)
            | inr (x, left) ↦ rw (e, changed, left, check_ttl) tt
          ]
    ]
    | inr (inl (x, e)) ↦ rw (e, check_ttl) tt
    | inr (inr e) ↦ rw (e, check_ttl) tt
  ]

  existing_bucket-IsLast : (j : J) → Settled j → IsLast (existing_bucket js key ttl j)
  unfolding existing_bucket
  existing_bucket-IsLast j s = elim (Result-cases (js.key_value key j).0) [
    | inl (b, e) ↦
        rw (e, existing_bucket)
          (check_ttl-IsLast b (js.key_value key j).1 (calm.found_of j b e) (calm.found j s))
    | inr (inl (x, e)) ↦ rw (e, existing_bucket) (calm.found j s)
    | inr (inr e) ↦ rw (e, existing_bucket) (calm.found j s)
  ]

  existing_bucket-IsCalm : (j : J) → IsCalm (existing_bucket js key ttl j)
  unfolding existing_bucket
  existing_bucket-IsCalm j = elim (Result-cases (js.key_value key j).0) [
    | inl (b, e) ↦ rw (e, existing_bucket) (check_ttl-IsCalm b (js.key_value key j).1)
    | inr (inl (x, e)) ↦ rw (e, existing_bucket) tt
    | inr (inr e) ↦ rw (e, existing_bucket) tt
  ]

  after_create-IsLast :
      (fresh : Bool) (r : Result JsError B) (j : J)
      → ((b : B) → r ≡ ok b → Of b)
      → Settled j
      → IsLast (after_create js key ttl fresh r j)
  after_create-IsLast true (ok b) j o s = s
  after_create-IsLast false (ok b) j o s = check_ttl-IsLast b j (o b refl) s
  after_create-IsLast fresh (err deadline_exceeded) j o s = s
  after_create-IsLast fresh (err stream_name_in_use) j o s = existing_bucket-IsLast j s
  after_create-IsLast fresh (err no_stream_response) j o s = s
  after_create-IsLast fresh (err key_exists) j o s = s
  after_create-IsLast fresh (err key_not_found) j o s = s
  after_create-IsLast fresh (err no_keys_found) j o s = s
  after_create-IsLast fresh (err (other x)) j o s = s
  after_create-IsLast fresh panic j o s = s

  after_create-IsCalm :
      (fresh : Bool) (r : Result JsError B) (j : J) → IsCalm (after_create js key ttl fresh r j)
  after_create-IsCalm true (ok b) j = tt
  after_create-IsCalm false (ok b) j = check_ttl-IsCalm b j
  after_create-IsCalm fresh (err deadline_exceeded) j = tt
  after_create-IsCalm fresh (err stream_name_in_use) j = existing_bucket-IsCalm j
  after_create-IsCalm fresh (err no_stream_response) j = tt
  after_create-IsCalm fresh (err key_exists) j = tt
  after_create-IsCalm fresh (err key_not_found) j = tt
  after_create-IsCalm fresh (err no_keys_found) j = tt
  after_create-IsCalm fresh (err (other x)) j = tt
  after_create-IsCalm fresh panic j = tt

  bucket_round-IsLast :
      (fresh : Bool) (j : J) → Settled j → IsLast (bucket_round js key ttl fresh j)
  unfolding bucket_round
  bucket_round-IsLast fresh j s =
      after_create-IsLast fresh _ _ (calm.created_of j) (calm.created j s)

  bucket_round-IsCalm : (fresh : Bool) (j : J) → IsCalm (bucket_round js key ttl fresh j)
  unfolding bucket_round
  bucket_round-IsCalm fresh j = after_create-IsCalm fresh _ _

  -- The result is there.
  abbrev IsDone : Option (Result JsError B × J) → Type 0
  IsDone r = (x : Result JsError B × J) × (r ≡ some x)

  bucket_ends_later :
      (fuel attempts : ℕ) (fresh : Bool) (j : J)
      → Settled j
      → attempts < fuel
      → IsDone (fetch_bucket_from js fuel attempts key ttl fresh j)
  unfolding fetch_bucket_from
  bucket_ends_later zero attempts fresh j s enough = absurd (omega arith)
  bucket_ends_later (suc fuel) zero fresh j s enough =
      let last = bucket_round-IsLast fresh j s in
      let (r, j') = bucket_round js key ttl fresh j in
      elim (Round-cases r) [
        | inl (x, e) ↦ ((x, j'), rw (e, fetch_bucket_from) refl)
        | inr (inl e) ↦ absurd (rw e at last)
        | inr (inr (x, e)) ↦ ((err x, j'), rw (e, fetch_bucket_from) refl)
      ]
  bucket_ends_later (suc fuel) (suc k) fresh j s enough =
      let last = bucket_round-IsLast fresh j s in
      let (r, j') = bucket_round js key ttl fresh j in
      elim (Round-cases r) [
        | inl (x, e) ↦ ((x, j'), rw (e, fetch_bucket_from) refl)
        | inr (inl e) ↦ absurd (rw e at last)
        | inr (inr (x, e)) ↦
            rw (e, fetch_bucket_from)
              (bucket_ends_later fuel k fresh j' (rw e at last) (omega arith))
      ]

  bucket_ends :
      (fuel attempts : ℕ) (fresh : Bool) (j : J)
      → attempts + 1 < fuel
      → IsDone (fetch_bucket_from js fuel attempts key ttl fresh j)
  unfolding fetch_bucket_from
  bucket_ends zero attempts fresh j enough = absurd (omega arith)
  bucket_ends (suc fuel) zero fresh j enough =
      let calm_round = bucket_round-IsCalm fresh j in
      let (r, j') = bucket_round js key ttl fresh j in
      elim (Round-cases r) [
        | inl (x, e) ↦ ((x, j'), rw (e, fetch_bucket_from) refl)
        | inr (inl e) ↦
            rw (e, fetch_bucket_from)
              (bucket_ends_later fuel 0 false j' (rw e at calm_round) (omega arith))
        | inr (inr (x, e)) ↦ ((err x, j'), rw (e, fetch_bucket_from) refl)
      ]
  bucket_ends (suc fuel) (suc k) fresh j enough =
      let calm_round = bucket_round-IsCalm fresh j in
      let (r, j') = bucket_round js key ttl fresh j in
      elim (Round-cases r) [
        | inl (x, e) ↦ ((x, j'), rw (e, fetch_bucket_from) refl)
        | inr (inl e) ↦
            rw (e, fetch_bucket_from)
              (bucket_ends_later fuel (suc k) false j' (rw e at calm_round) (omega arith))
        | inr (inr (x, e)) ↦ rw (e, fetch_bucket_from) (bucket_ends fuel k fresh j' (omega arith))
      ]

  -- When the service makes the bucket with the time to live that it is asked for, and no other
  -- client gives it another one once it was deleted, fetchBucketWithTTL ends: it asks the service
  -- to make the bucket seven times at most, whatever the service answers.
  pub fetch_bucket_ends :
      (fuel : ℕ) (j : J)
      → 7 ≤ fuel
      → (r : Result JsError B) × (j' : J) × (fetch_bucket_with_ttl js fuel key ttl j ≡ some (r, j'))
  unfolding fetch_bucket_with_ttl
  fetch_bucket_ends fuel j enough =
      let (x, done) = bucket_ends fuel 5 true j (omega arith) in (x.0, x.1, done)
