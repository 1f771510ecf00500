-- ===== src/Sse/Requests/Position.antt =====
-- The ID of an event, and what is read of it when the client comes again.
use anycable_go.Prelude.{
  All, All-append, Bool-cases, List, [], arith, false, inl, inr, is_empty, is_empty-append, leb,
  ltb, none-ne-some, ok, refl, some, some_injective, suc, true, zero, ℕ, ◌%◌, ◌&&◌, ◌*◌, ◌++◌, ◌+◌,
  ◌-◌, ◌/◌, ◌<◌, ◌==◌, ◌^◌, ◌∙◌, ◌∷◌, ◌≡◌, string_eq, nat_eq,
}
use native.Mathlib.Nat.{pow-suc}
use anycable_go.Sse.Encoder.{ReplyBody, digits, decimal, event_id, slash}
use anycable_go.Sse.Requests.{parse_digits, parse_uint, cut, position_of}

abbrev pub NoSlash : List ℕ → Type 0
NoSlash = All (λ c. (c == slash) ≡ false)

cut_first : (xs ys : List ℕ) → NoSlash xs → cut (xs ++ slash ∷ ys) ≡ some (xs, ys)
unfolding cut
cut_first [] ys h = refl
cut_first (x ∷ xs) ys h = rw (h.0, cut_first xs ys h.1) refl

-- Digits are never a slash.
digits-NoSlash : (fuel n : ℕ) → NoSlash (digits fuel n)
unfolding digits
digits-NoSlash zero n = tt
digits-NoSlash (suc fuel) n = elim (Bool-cases (ltb n 10)) [
  | inl small ↦ rw (small, digits) (ground arith, tt)
  | inr large ↦
      rw (large, digits)
        (All-append (λ c. (c == slash) ≡ false) (digits fuel (n / 10)) ((48 + n % 10) ∷ [])
          (digits-NoSlash fuel (n / 10)) (ground arith, tt))
]

-- One more digit at the end.
parse_digits_last :
    (acc : ℕ) (xs : List ℕ) (m d : ℕ)
    → parse_digits acc xs ≡ some m
    → d < 10
    → m * 10 + d < 2 ^ 64
    → parse_digits acc (xs ++ (48 + d) ∷ []) ≡ some (m * 10 + d)
unfolding parse_digits
parse_digits_last acc [] m d h small fits = let same : acc ≡ m = some_injective h in ground arith
parse_digits_last acc (x ∷ xs) m d h small fits =
    let next = acc * 10 + (x - 48) in
    elim (Bool-cases (leb 48 x && leb x 57 && ltb next (2 ^ 64))) [
      | inl good ↦ rw good (parse_digits_last next xs m d (rw good at h) small fits)
      | inr bad ↦ absurd (none-ne-some (rw bad at h))
    ]

parse_uint_some : (xs : List ℕ) → is_empty xs ≡ false → parse_uint xs ≡ parse_digits 0 xs
parse_uint_some [] h = absurd (cc)
parse_uint_some (x ∷ xs) h = refl

digits_some : (fuel n : ℕ) → is_empty (digits (suc fuel) n) ≡ false
unfolding digits
digits_some fuel n = elim (Bool-cases (ltb n 10)) [
  | inl small ↦ rw (small, digits) refl
  | inr large ↦ rw (large, digits) (is_empty-append (digits fuel (n / 10)) (48 + n % 10))
]

parse_one_digit : (n : ℕ) → n < 10 → parse_digits 0 ((48 + n) ∷ []) ≡ some n
unfolding parse_digits
parse_one_digit n small = ground arith

parse_digits-digits :
    (fuel n : ℕ) → n < 10 ^ suc fuel → n < 2 ^ 64 → parse_digits 0 (digits (suc fuel) n) ≡ some n
unfolding digits
parse_digits-digits zero n h fits =
    let small : n < 10 = h in
    let is_small : ltb n 10 ≡ true = ground arith in rw is_small (parse_one_digit n small)
parse_digits-digits (suc fuel) n h fits = elim (Bool-cases (ltb n 10)) [
  | inl is_small ↦ rw (is_small, digits) (parse_one_digit n (ground arith))
  | inr is_large ↦
      let front =
        parse_digits-digits fuel (n / 10) (omega (arith, pow-suc 10 (suc fuel))) (omega arith) in
      let whole : n / 10 * 10 + n % 10 ≡ n = omega arith in
      rw (is_large, digits)
        (parse_digits_last 0 (digits (suc fuel) (n / 10)) (n / 10) (n % 10) front (omega arith)
            (omega arith)
          ∙ rw whole refl)
]

position_of_parts :
    (number epoch stream : List ℕ) (offset : ℕ)
    → NoSlash number
    → NoSlash epoch
    → parse_uint number ≡ some offset
    → position_of (number ++ slash ∷ (epoch ++ slash ∷ stream))
      ≡ ok (some (record { stream = stream; offset = offset; epoch = epoch }))
unfolding position_of
position_of_parts number epoch stream offset whole plain parsed =
    rw
      (
        cut_first number (epoch ++ slash ∷ stream) whole,
        cut_first epoch stream plain,
        parsed,
        position_of,
      )
      refl

-- The ID that the encoder gives to an event of a stream is read, when the client sends it as that of
-- the last event, as the position of the event: its stream, offset and epoch. The offset has 64
-- bits, and no slash is in the epoch; there may be some in the name of the stream.
pub position_of-event_id :
    (r : ReplyBody)
    → r.offset < 2 ^ 64
    → NoSlash r.epoch
    → position_of (event_id r)
      ≡ ok (some (record { stream = r.stream_id; offset = r.offset; epoch = r.epoch }))
unfolding event_id
position_of-event_id r fits plain =
    position_of_parts (decimal r.offset) r.epoch r.stream_id r.offset (digits-NoSlash 20 r.offset)
      plain
      (parse_uint_some (decimal r.offset) (digits_some 19 r.offset)
        ∙ parse_digits-digits 19 r.offset (omega arith) fits)
