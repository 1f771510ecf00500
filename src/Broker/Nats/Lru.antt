-- ===== src/Broker/Nats/Lru.antt =====
-- lru of broker/nats.go: values that were made under a key and are given up some time after. Times
-- are milliseconds.
pub mod Lifetime
use anycable_go.Prelude.{
  Bool, Option, Result, String, [], err, false, if◌then◌else◌, ltb, none, ok, panic, some, true, ℕ,
  ◌+◌, ◌∷◌, string_eq, nat_eq,
}
use anycable_go.Prelude.Dict.{Dict, lookup, put}

-- `S` is the state that making a value and giving it up work on.
pub record LruEntry (S T : Type 0) : Type 0 where
  pub value : T
  pub last_active : ℕ
  pub cleanup : T → S → S

pub record Lru (S T : Type 0) : Type 0 where
  pub entries : Dict String (LruEntry S T)
  pub ttl : ℕ

module _ {S T : Type 0} where
  pub new_lru : ℕ → Lru S T
  new_lru ttl = record { entries = []; ttl = ttl }

  -- `entry.lastActive.Add(m.ttl).Before(time.Now())`.
  abbrev pub is_over : ℕ → ℕ → LruEntry S T → Bool
  is_over ttl now e = ltb (e.last_active + ttl) now

  -- The entry that is touched is a copy of the one in the map.
  unfoldable pub read : ℕ → String → Lru S T → Option T
  read now key m = elim (lookup key m.entries) [
    | none ↦ none
    | some e ↦ if is_over m.ttl now e then none else some e.value
  ]

  pub expire : ℕ → ℕ → Dict String (LruEntry S T) → S → Dict String (LruEntry S T) × S
  expire ttl now [] s = ([], s)
  expire ttl now ((key, e) ∷ m) s = elim (is_over ttl now e) [
    | true ↦ expire ttl now m (e.cleanup e.value s)
    | false ↦ let (m', s') = expire ttl now m s in ((key, e) ∷ m', s')
  ]

  pub write : ℕ → String → T → (T → S → S) → Lru S T → S → Lru S T × S
  unfolding expire
  write now key value cleanup m s =
      let entry : LruEntry S T = record { value = value; last_active = now; cleanup = cleanup } in
      let (entries, s') = expire m.ttl now (put key entry m.entries) s in
      (record m { entries = entries }, s')

  pub fetch :
      {E : Type 0}
      → ℕ
      → String
      → (S → Result E T × S)
      → (T → S → S)
      → Lru S T
      → S
      → Result E T × Lru S T × S
  unfolding read write
  fetch now key create cleanup m s = elim (read now key m) [
    | some value ↦ (ok value, m, s)
    | none ↦
        let (made, s') = create s in
        elim made [
          | ok value ↦ let (m', t) = write now key value cleanup m s' in (ok value, m', t)
          | err e ↦ (err e, m, s')
          | panic ↦ (panic, m, s')
        ]
  ]
