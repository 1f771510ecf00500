-- ===== src/Broker/Nats/Streams/Copy.antt =====
-- What the consumers of broker/nats.go leave in the memory broker of a node.
use anycable_go.Prelude.{
  Bool-cases, List, Option-cases, String, [], ap, arith, drop, false, inl, inr, leb, length,
  length-append, length-drop, none, refl, some, suc, sym, true, zero, ℕ, ◌++◌, ◌+◌, ◌-◌, ◌/◌, ◌<◌,
  ◌∙◌, ◌∷◌, ◌≡◌, ◌≤◌,
}
use anycable_go.Broker.Memory.{stream_at}
use anycable_go.Broker.Memstream.{Memstream, Entry}
use anycable_go.Broker.Memstream.Append.{keep_last, appended}
use anycable_go.Broker.Memstream.Invariant.{IsStream, appended-IsStream}
use anycable_go.Broker.Nats.JetStream.{JsMsg}
use anycable_go.Broker.Memory.Store.{store_taken, store_accepted}
use mathlib.Core.List.{append-nil, append_assoc}
use native.Mathlib.Nat.{zero-add, suc-add}
use anycable_go.Broker.Nats.Streams.{Outside, consume_message, consume_all, touch}

-- The entries for the messages whose sequence number is above all before, from `top` on. The others,
-- and those whose metadata cannot be read, are passed over.
unfoldable pub accepted : ℕ → List JsMsg → List Entry
accepted top [] = []
accepted top (msg ∷ msgs) = elim msg.metadata [
  | none ↦ accepted top msgs
  | some at ↦ elim (leb at.0 top) [
    | true ↦ accepted top msgs
    | false ↦ record { timestamp = at.1; offset = at.0; body = msg.body } ∷ accepted at.0 msgs
  ]
]

-- The stream of the memory broker.
abbrev pub copied : {J : Type 0} → String → Outside J → Memstream
copied stream o = stream_at stream o.local

drop_append : (n : ℕ) (xs ys : List Entry) → n ≤ length xs → drop n xs ++ ys ≡ drop n (xs ++ ys)
drop_append zero xs ys h = refl
drop_append (suc n) [] ys h = absurd (omega arith)
drop_append (suc n) (x ∷ xs) ys h = drop_append n xs ys (omega arith)

drop_nothing : (n : ℕ) → drop {A = Entry} n [] ≡ []
drop_nothing zero = refl
drop_nothing (suc n) = refl

drop_twice : (m n : ℕ) (xs : List Entry) → drop m (drop n xs) ≡ drop (n + m) xs
drop_twice m zero xs = rw (zero-add m) refl
drop_twice m (suc n) [] = drop_nothing m ∙ sym (drop_nothing (suc n + m))
drop_twice m (suc n) (x ∷ xs) = rw (suc-add n m) (drop_twice m n xs)

keep_last_twice :
    (limit : ℕ) (xs ys : List Entry)
    → keep_last limit (keep_last limit xs ++ ys) ≡ keep_last limit (xs ++ ys)
keep_last_twice limit xs ys =
    let n = length xs - limit in
    let m = length (drop n (xs ++ ys)) - limit in
    let within : n ≤ length xs = omega arith in
    let total : n + m ≡ length (xs ++ ys) - limit =
      omega (arith, length-append xs ys, length-drop n (xs ++ ys)) in
    rw (drop_append n xs ys within, drop_twice m n (xs ++ ys), total) refl

-- One message.
consumed :
    {J : Type 0} (now : ℕ) (stream : String) (msg : JsMsg) (o : Outside J)
    → IsStream (copied stream o)
    → 0 < (copied stream o).limit
    → (o' : Outside J) × (consume_message now stream msg o ≡ some o')
      × IsStream (copied stream o')
      × ((copied stream o').limit ≡ (copied stream o).limit)
      × ((msgs : List JsMsg)
          → keep_last
              (copied stream o).limit
              ((copied stream o').entries ++ accepted (copied stream o').offset msgs)
            ≡ keep_last
                (copied stream o).limit
                ((copied stream o).entries ++ accepted (copied stream o).offset (msg ∷ msgs)))
unfolding consume_message accepted
consumed now stream msg o v room = elim (Option-cases msg.metadata) [
  | inl unread ↦ (
    record o { sync = touch now stream o.sync },
    rw (unread, consume_message) refl,
    v,
    refl,
    λ msgs. rw (unread, accepted) refl,
  )
  | inr (at, read) ↦ elim (Bool-cases (leb at.0 (copied stream o).offset)) [
    | inl taken ↦
        let (b', done, same) =
          store_taken (now / 1000) stream msg.body at.0 (some at.1) o.local taken in
        (
          record o { sync = touch now stream o.sync; local = b' },
          rw (read, ap (λ r. r.0) done, ap (λ r. r.1) done, consume_message) refl,
          rw same v,
          rw same refl,
          λ msgs. rw (same, read, taken, accepted) refl,
        )
    | inr free ↦
        let e : Entry = record { timestamp = at.1; offset = at.0; body = msg.body } in
        let (b', done, same) =
          store_accepted (now / 1000) stream msg.body at.0 (some at.1) o.local free
            (record { low = v.low; bounded = v.bounded }) room in
        (
          record o { sync = touch now stream o.sync; local = b' },
          rw (read, ap (λ r. r.0) done, ap (λ r. r.1) done, consume_message) refl,
          rw same (appended-IsStream (now / 1000) e (copied stream o) v (ground arith)),
          rw same (unfold appended in refl),
          λ msgs.
              rw (same, read, free, accepted)
                (unfold appended in
                  keep_last_twice (copied stream o).limit ((copied stream o).entries ++ e ∷ [])
                    (accepted at.0 msgs)
                  ∙ rw (append_assoc (copied stream o).entries (e ∷ []) (accepted at.0 msgs)) refl),
        )
  ]
]

-- When the history has a limit of at least 1, a batch of messages is consumed without a panic, and
-- afterwards the memory broker's stream is well formed and holds the last entries, up to the limit,
-- of those it had and then those that the messages bring, in order. Messages that are delivered
-- again or out of order change nothing.
pub consume_all-entries :
    {J : Type 0} (now : ℕ) (stream : String) (msgs : List JsMsg) (o : Outside J)
    → IsStream (copied stream o)
    → 0 < (copied stream o).limit
    → (o' : Outside J) × (consume_all now stream msgs o ≡ some o')
      × IsStream (copied stream o')
      × ((copied stream o').entries
          ≡ keep_last
              (copied stream o).limit
              ((copied stream o).entries ++ accepted (copied stream o).offset msgs))
unfolding consume_all
consume_all-entries now stream [] o v room =
    let small : length (copied stream o).entries - (copied stream o).limit ≡ 0 =
      omega (arith, v.bounded) in
    (o, refl, v, unfold accepted in rw (append-nil (copied stream o).entries, small) refl)
consume_all-entries now stream (msg ∷ msgs) o v room =
    let (o1, one, v1, same, kept) = consumed now stream msg o v room in
    let (o2, rest, v2, entries) = consume_all-entries now stream msgs o1 v1 (rw same room) in
    (o2, rw (one, consume_all) rest, v2, entries ∙ rw same (kept msgs))
