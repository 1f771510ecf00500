-- ===== src/Broker/Nats/Lru/Lifetime.antt =====
-- How long lru of broker/nats.go keeps a value, and which values it cleans up.
use anycable_go.Prelude.{
  ==_iff, ==_refl, All, Bool-cases, List, Option, Result, String, [], ap, arith, if◌then◌else◌, inl,
  inr, map, none, ok, refl, some, sym, ℕ, ◌+◌, ◌<◌, ◌∙◌, ◌∷◌, ◌≡◌, ◌≤◌, string_eq, nat_eq,
}
use anycable_go.Prelude.Dict.{Dict, IsDict, lookup, lookup-put, put, put-IsDict, put_twice}
use anycable_go.Broker.Nats.Lru
use anycable_go.Broker.Nats.Lru.{Lru, LruEntry, is_over, read, write, fetch}

module _ {S T : Type 0} where
  -- What a pass leaves of the entry that a key has.
  abbrev pub surviving : ℕ → ℕ → Option (LruEntry S T) → Option (LruEntry S T)
  surviving ttl now none = none
  surviving ttl now (some e) = if is_over ttl now e then none else some e

  lookup-expire :
      (ttl now : ℕ) (key : String) (m : Dict String (LruEntry S T)) (s : S)
      → IsDict m
      → lookup key (Lru.expire ttl now m s).0 ≡ surviving ttl now (lookup key m)
  unfolding Lru.expire lookup
  lookup-expire ttl now key [] s d = refl
  lookup-expire ttl now key ((j, e) ∷ m) s d = elim (Bool-cases (is_over ttl now e)) [
    | inl over ↦ ground (arith, ==_iff j key, lookup-expire ttl now key m (e.cleanup e.value s) d.1)
    | inr fresh ↦ ground (arith, lookup-expire ttl now key m s d.1)
  ]

  -- Fetches of the same key at the times given, one after the other, with what each gives.
  pub fetch_all :
      {E : Type 0}
      → String
      → (S → Result E T × S)
      → (T → S → S)
      → List ℕ
      → Lru S T
      → S
      → List (Result E T) × Lru S T × S
  fetch_all key create cleanup [] m s = ([], m, s)
  fetch_all key create cleanup (t ∷ ts) m s =
      let (r, m1, s1) = fetch t key create cleanup m s in
      let (rs, m2, s2) = fetch_all key create cleanup ts m1 s1 in (r ∷ rs, m2, s2)

  module _ {E : Type 0} (now : ℕ) (key : String) (create : S → Result E T × S) (cleanup : T → S → S)
      (m : Lru S T) (s : S) (d : IsDict m.entries) (missing : read now key m ≡ none) (v : T)
      (s1 : S) (made : create s ≡ (ok v, s1)) where
    abbrev entry : LruEntry S T
    entry = record { value = v; last_active = now; cleanup = cleanup }

    fetch-write :
        fetch now key create cleanup m s
        ≡ (ok v, (write now key v cleanup m s1).0, (write now key v cleanup m s1).1)
    unfolding fetch
    fetch-write = rw (missing, ap (λ r. r.0) made, ap (λ r. r.1) made, fetch) refl

    lookup-write : lookup key (write now key v cleanup m s1).0.entries ≡ some entry
    unfolding write
    lookup-write =
        lookup-expire m.ttl now key (put key entry m.entries) s1 (put-IsDict key entry m.entries d)
        ∙ ground (arith, lookup-put key key entry m.entries, ==_refl key)

  read_fresh :
      (t : ℕ) (key : String) (e : LruEntry S T) (m : Lru S T)
      → lookup key m.entries ≡ some e
      → t ≤ e.last_active + m.ttl
      → read t key m ≡ some e.value
  unfolding read
  read_fresh t key e m h early = ground arith

  read_over :
      (t : ℕ) (key : String) (e : LruEntry S T) (m : Lru S T)
      → lookup key m.entries ≡ some e
      → e.last_active + m.ttl < t
      → read t key m ≡ none
  unfolding read
  read_over t key e m h late = ground arith

  fetch_all-fresh :
      {E : Type 0} (key : String) (create : S → Result E T × S) (cleanup : T → S → S) (ts : List ℕ)
      (e : LruEntry S T) (m : Lru S T) (s : S)
      → lookup key m.entries ≡ some e
      → All (λ t. t ≤ e.last_active + m.ttl) ts
      → fetch_all key create cleanup ts m s ≡ (map (λ t. ok e.value) ts, m, s)
  unfolding fetch_all fetch
  fetch_all-fresh key create cleanup [] e m s h early = refl
  fetch_all-fresh key create cleanup (t ∷ ts) e m s h early =
      rw
        (
          read_fresh t key e m h early.0,
          fetch_all-fresh key create cleanup ts e m s h early.1,
          fetch,
          fetch_all,
        )
        refl

  -- A value that is made at `now` is the result of that fetch and of every fetch of its key that
  -- follows it until `now` and the time to live, whatever those would make; they make nothing and
  -- change nothing. They do not prolong its life: when the time to live has passed since the value
  -- was made, the key reads as missing, however often and however late before that it was fetched.
  pub fetch_lifetime :
      {E : Type 0} (now : ℕ) (key : String) (create create' : S → Result E T × S)
      (cleanup cleanup' : T → S → S) (m : Lru S T) (s : S) (v : T) (s1 : S) (uses : List ℕ)
      (after : ℕ)
      → IsDict m.entries
      → read now key m ≡ none
      → create s ≡ (ok v, s1)
      → All (λ t. t ≤ now + m.ttl) uses
      → now + m.ttl < after
      → let (r, m', s') = fetch now key create cleanup m s in
        (r ≡ ok v)
        × (fetch_all key create' cleanup' uses m' s' ≡ (map (λ t. ok v) uses, m', s'))
        × (read (now + m.ttl) key m' ≡ some v)
        × (read after key m' ≡ none)
  fetch_lifetime now key create create' cleanup cleanup' m s v s1 uses after d missing made early
        late =
      let e = entry now key create cleanup m s d missing v s1 made in
      let w = write now key v cleanup m s1 in
      let found = lookup-write now key create cleanup m s d missing v s1 made in
      let kept : w.0.ttl ≡ m.ttl = unfold write in refl in
      let uses_in : All (λ t. t ≤ now + w.0.ttl) uses = rw kept early in
      rw (fetch-write now key create cleanup m s d missing v s1 made) (
        refl,
        fetch_all-fresh key create' cleanup' uses e w.0 w.1 found uses_in,
        read_fresh (now + m.ttl) key e w.0 found (rw kept (omega arith)),
        read_over after key e w.0 found (rw kept late),
      )

  -- A value that has expired, and was made under a key that a fetch makes anew, leaves no trace: the
  -- fetch ends as if the value had never been there. In particular it is not cleaned up, whatever
  -- its cleanup does, while every other expired value is.
  pub fetch_forgets :
      {E : Type 0} (now : ℕ) (key : String) (create : S → Result E T × S) (cleanup : T → S → S)
      (m : Lru S T) (s : S) (v : T) (s1 : S) (e : LruEntry S T)
      → IsDict m.entries
      → read now key m ≡ none
      → create s ≡ (ok v, s1)
      → e.last_active + m.ttl < now
      → fetch now key create cleanup (record m { entries = put key e m.entries }) s
        ≡ fetch now key create cleanup m s
  unfolding write
  fetch_forgets now key create cleanup m s v s1 e d missing made late =
      let m' : Lru S T = record m { entries = put key e m.entries } in
      let found : lookup key m'.entries ≡ some e =
        ground (arith, lookup-put key key e m.entries, ==_refl key) in
      let over = read_over now key e m' found late in
      let same = put_twice key (entry now key create cleanup m s d missing v s1 made) e m.entries in
      fetch-write now key create cleanup m' s (put-IsDict key e m.entries d) over v s1 made
      ∙ rw same refl
      ∙ sym (fetch-write now key create cleanup m s d missing v s1 made)
