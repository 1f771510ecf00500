-- ===== src/Broker/Nats/Buckets/Tests.antt =====
-- The initialization of the NATS broker with a service that has room for any buckets, one of which is
-- there with another time to live.
use anycable_go.Prelude.{
  ==_refl, Option, Result, String, [], ap, arith, err, if◌then◌else◌, none, ok, refl, some, sym, ℕ,
  ◌==◌, ◌∙◌, ◌≡◌, ◌≤◌, string_eq, nat_eq,
}
use anycable_go.Broker.Nats.JetStream.{JetStream, JsError, stream_name_in_use, key_exists, other}
use anycable_go.Broker.Nats.Streams.{Nats}
use anycable_go.Broker.Nats.Tests.{broker}
use anycable_go.Broker.Nats.Buckets.{init_jet_stream_with_retry, kv_bucket}
use anycable_go.Broker.Nats.Buckets.Fetched.{IsUndisturbed}
use anycable_go.Broker.Nats.Buckets.Initialized.{init_jet_stream_with_retry_ends}

-- The buckets that are there, with their times to live. A bucket's handle is its key.
abbrev Buckets : Type 0
Buckets = String → Option ℕ

abbrev updated : String → Option ℕ → Buckets → Buckets
updated name ttl j = λ k. if k == name then ttl else j k

abbrev create : String → ℕ → Option ℕ → Buckets → Result JsError String × Buckets
create name ttl none j = (ok name, updated name (some ttl) j)
create name ttl (some old) j = (err stream_name_in_use, j)

abbrev found : String → Option ℕ → Result JsError String
found name none = err (other "no bucket")
found name (some ttl) = ok name

abbrev status : Option ℕ → Result JsError ℕ
status none = err (other "no bucket")
status (some ttl) = ok ttl

abbrev service : JetStream Buckets Unit String
service = record {
  create_stream = λ name size age j. (none, j);
  publish = λ subject body j. (ok 7, j);
  create_consumer = λ name j. (ok tt, j);
  fetch_no_wait = λ c size j. (ok [], j);
  consume = λ c j. (none, j);
  delete_consumer = λ name c j. j;
  stream_names = λ subject j. ([], j);
  delete_stream = λ name j. j;
  create_key_value = λ name ttl j. create name ttl (j name) j;
  key_value = λ name j. (found name (j name), j);
  bucket_ttl = λ b j. (status (j b), j);
  delete_key_value = λ name j. (none, updated name none j);
  create_key = λ b k v j. (some key_exists, j);
  put_key = λ b k v j. (none, j);
  get_key = λ b k j. (ok "kept", j);
  keys = λ b j. (ok [], j);
  delete_key = λ b k j. j;
  watch_key = λ b k j. (none, j);
}

-- The bucket is not there, or has this time to live.
abbrev Allows : ℕ → Option ℕ → Type 0
Allows ttl none = Unit
Allows ttl (some old) = old ≡ ttl

abbrev Settled : String → ℕ → Buckets → Type 0
Settled key ttl j = Allows ttl (j key)

abbrev Of : String → String → Type 0
Of key b = b ≡ key

updated_same : (key : String) (ttl : Option ℕ) (j : Buckets) → updated key ttl j key ≡ ttl
updated_same key ttl j = rw (==_refl key) refl

create-Settled :
    (key : String) (ttl : ℕ) (old : Option ℕ) (j : Buckets)
    → Settled key ttl j
    → Settled key ttl (create key ttl old j).1
create-Settled key ttl none j s = rw (updated_same key (some ttl) j) refl
create-Settled key ttl (some old) j s = s

create-Of :
    (key : String) (ttl : ℕ) (old : Option ℕ) (j : Buckets) (b : String)
    → (create key ttl old j).0 ≡ ok b
    → Of key b
create-Of key ttl none j b e = cc
create-Of key ttl (some old) j b e = absurd (cc)

found-Of : (key : String) (old : Option ℕ) (b : String) → found key old ≡ ok b → Of key b
found-Of key none b e = absurd (cc)
found-Of key (some old) b e = cc

status-Allows : (ttl old : ℕ) (o : Option ℕ) → Allows ttl o → status o ≡ ok old → old ≡ ttl
status-Allows ttl old none a e = absurd (cc)
status-Allows ttl old (some t) a e = cc

service-IsUndisturbed :
    (key : String) (ttl : ℕ) → IsUndisturbed service key ttl (Settled key ttl) (Of key)
service-IsUndisturbed key ttl = record {
  deleted = λ j gone. rw (updated_same key none j) tt;
  created = λ j s. create-Settled key ttl (j key) j s;
  created_of = λ j b e. create-Of key ttl (j key) j b e;
  found = λ j s. s;
  found_of = λ j b e. found-Of key (j key) b e;
  asked = λ b j o s. s;
  same_ttl = λ b j old o s e. status-Allows ttl old (j key) s (ap (λ k. status (j k)) (sym o) ∙ e);
}

enough : 7 ≤ 7
enough = omega arith

abbrev crowded : Buckets
crowded = updated kv_bucket (some 5) (λ k. none)

init_jet_stream_with_retry_ends_example :
    (r : Result JsError Unit) × (n' : Nats Buckets Unit String) × (init_jet_stream_with_retry
        service 7
        (λ k. "new")
        (broker crowded)
      ≡ some (r, n'))
init_jet_stream_with_retry_ends_example =
    init_jet_stream_with_retry_ends service 7 enough Settled Of service-IsUndisturbed (λ k. "new")
      (broker crowded)
