-- ===== src/Broker/Memory/Sweep.antt =====
-- The streams' part of expire of broker/memory.go.
use anycable_go.Prelude.{
  ==_iff, Bool-cases, Option, String, [], ap, arith, false, if◌then◌else◌, inl, inr, ltb, map, none,
  refl, some, sym, true, ℕ, ◌-◌, ◌<◌, ◌==◌, ◌∙◌, ◌∷◌, ◌≡◌, ◌≤◌, string_eq, nat_eq,
}
use anycable_go.Prelude.Dict.{Dict, IsDict, lookup}
use anycable_go.Broker.Memstream.Retention.{
  deadline-expire, Dated, expire-entries, filter_by_time_twice,
}
use anycable_go.Broker.Presence.View.{or_none}
use anycable_go.Common.{PresenceEvent}
use anycable_go.Broker.Memstream
use anycable_go.Broker.Memstream.{Memstream, Entry, filter_by_time}
use anycable_go.Broker.Memory.{Memory, expire_streams, history_since, expire, to_message}

-- One stream after the pass: gone once its deadline has passed.
abbrev pub swept : ℕ → Memstream → Option Memstream
swept now ms = if ltb ms.deadline now then none else some (Memstream.expire now ms)

lookup-expire_streams :
    (now : ℕ) (name : String) (m : Dict String Memstream)
    → IsDict m
    → lookup name (expire_streams now m) ≡ or_none (lookup name m) (swept now)
unfolding expire_streams lookup
lookup-expire_streams now name [] d = refl
lookup-expire_streams now name ((k, ms) ∷ m) d = elim (Bool-cases (k == name)) [
  | inl here ↦
      let same : k ≡ name = (==_iff k name).0 here in
      let absent : lookup name m ≡ none = rw same at d.0 in
      ground (arith, here, absent, lookup-expire_streams now name m d.1, deadline-expire now ms)
  | inr there ↦ ground (arith, there, lookup-expire_streams now name m d.1, deadline-expire now ms)
]

history_since-known :
    {A : Type 0} (ts : ℕ) (name : String) (b : Memory A) (ms : Memstream)
    → lookup name b.streams ≡ some ms
    → history_since name ts b ≡ map (to_message name b.epoch) (filter_by_time ts ms.entries)
unfolding history_since
history_since-known ts name b ms at = rw (at, history_since)

history_since-unknown :
    {A : Type 0} (ts : ℕ) (name : String) (b : Memory A)
    → lookup name b.streams ≡ none
    → history_since name ts b ≡ []
unfolding history_since
history_since-unknown ts name b at = rw (at, history_since)

lookup-swept :
    (now : ℕ) (name : String) (m : Dict String Memstream) (ms : Memstream)
    → IsDict m
    → lookup name m ≡ some ms
    → lookup name (expire_streams now m) ≡ swept now ms
lookup-swept now name m ms d at =
    lookup-expire_streams now name m d ∙ ap (λ o. or_none o (swept now)) at

module _ {A : Type 0} (to_json : PresenceEvent A → String) where
  -- A reader who asks for the messages since a time that the TTL still covers gets, after an
  -- expiry before the stream's deadline, what it would have got before it. The times of the stream's
  -- entries never fall in the order in which they are stored.
  pub history_since-expire :
      (now lo ts : ℕ) (name : String) (b : Memory A) (ms : Memstream)
      → IsDict b.streams
      → lookup name b.streams ≡ some ms
      → Dated lo ms.entries
      → now ≤ ms.deadline
      → now - ms.ttl ≤ ts
      → history_since name ts (expire to_json now b).1 ≡ history_since name ts b
  unfolding expire
  history_since-expire now lo ts name b ms d at dated alive covered =
      let live : ltb ms.deadline now ≡ false = ground arith in
      let found : lookup name (expire_streams now b.streams) ≡ some (Memstream.expire now ms) =
        lookup-swept now name b.streams ms d at ∙ rw live in
      history_since-known ts name (expire to_json now b).1 (Memstream.expire now ms) found
      ∙ ap (map (to_message name b.epoch)) (
          ap (filter_by_time ts) (expire-entries now lo ms dated)
          ∙ filter_by_time_twice (now - ms.ttl) ts ms.entries covered)
      ∙ sym (history_since-known ts name b ms at)

  -- A stream whose deadline has passed is gone, with its history.
  pub history_since-expired :
      (now ts : ℕ) (name : String) (b : Memory A) (ms : Memstream)
      → IsDict b.streams
      → lookup name b.streams ≡ some ms
      → ms.deadline < now
      → history_since name ts (expire to_json now b).1 ≡ []
  unfolding expire
  history_since-expired now ts name b ms d at over =
      let dead : ltb ms.deadline now ≡ true = ground arith in
      history_since-unknown ts name (expire to_json now b).1
        (lookup-swept now name b.streams ms d at ∙ rw dead)
