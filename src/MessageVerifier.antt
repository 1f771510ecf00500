-- ===== src/MessageVerifier.antt =====
-- utils/message_verifier.go: texts with a signature, as Rails writes them. Texts are lists of bytes.
pub mod Split
pub mod RoundTrip
pub mod Tests
use anycable_go.Prelude.{
  Bool, List, Option, Result, [], err, false, if◌then◌else◌, is_empty, length, ltb, none, ok, some,
  true, ℕ, ◌%◌, ◌&&◌, ◌++◌, ◌+◌, ◌-◌, ◌/◌, ◌==◌, ◌>>=◌, ◌∷◌, string_eq, nat_eq,
}

-- HMAC with SHA-256, base64 and JSON. A payload is of the type `P`.
pub record Codecs (P : Type 0) : Type 0 where
  pub hmac : List ℕ → List ℕ → List ℕ
  pub base64 : List ℕ → List ℕ
  pub from_base64 : List ℕ → Option (List ℕ)
  -- `none` is an error.
  pub to_json : P → Option (List ℕ)
  pub from_json : List ℕ → Option P

pub data VerifyError : Type 0 where
  not_encoded empty_message invalid_signature not_base64 not_json : VerifyError
  wrong_parts : ℕ → VerifyError

pub record MessageVerifier : Type 0 where
  pub key : List ℕ

abbrev pub dash : ℕ
dash = b'-'

-- Whether two bytes are the separator.
abbrev pub is_separator : ℕ → ℕ → Bool
is_separator x y = x == dash && y == dash

abbrev pub cons_head : ℕ → List (List ℕ) → List (List ℕ)
cons_head x [] = (x ∷ []) ∷ []
cons_head x (p ∷ ps) = (x ∷ p) ∷ ps

-- `strings.Split` by "--".
unfoldable pub split : List ℕ → List (List ℕ)
split [] = [] ∷ []
split (x ∷ []) = (x ∷ []) ∷ []
split (x ∷ y ∷ rest) = elim (is_separator x y) [
  | true ↦ [] ∷ split rest
  | false ↦ cons_head x (split (y ∷ rest))
]

-- `%x`: two digits for a byte.
unfoldable pub hex_digit : ℕ → ℕ
hex_digit n = if ltb n 10 then b'0' + n else b'a' + (n - 10)

unfoldable pub to_hex : List ℕ → List ℕ
unfolding hex_digit
to_hex [] = []
to_hex (b ∷ bs) = hex_digit (b / 16) ∷ hex_digit (b % 16) ∷ to_hex bs

-- The constant-time comparisons, which say what this says.
unfoldable pub same_bytes : List ℕ → List ℕ → Bool
same_bytes [] [] = true
same_bytes [] (b ∷ bs) = false
same_bytes (a ∷ as_) [] = false
same_bytes (a ∷ as_) (b ∷ bs) = a == b && same_bytes as_ bs

module _ {P : Type 0} (c : Codecs P) where
  unfoldable pub sign : MessageVerifier → List ℕ → List ℕ
  unfolding to_hex
  sign m payload = to_hex (c.hmac m.key payload)

  unfoldable pub generate : MessageVerifier → P → Result VerifyError (List ℕ)
  unfolding sign
  generate m payload = elim (c.to_json payload) [
    | none ↦ err not_encoded
    | some text ↦ let encoded = c.base64 text in ok (encoded ++ dash ∷ dash ∷ sign m encoded)
  ]

  unfoldable pub verify_signature : MessageVerifier → List ℕ → List ℕ → Bool
  unfolding to_hex same_bytes
  verify_signature m payload digest = same_bytes (to_hex (c.hmac m.key payload)) digest

  -- The parts of a message that has two, if the second signs the first.
  unfoldable pub check_parts : MessageVerifier → List (List ℕ) → Result VerifyError (List ℕ)
  unfolding verify_signature
  check_parts m [] = err (wrong_parts 0)
  check_parts m (p ∷ []) = err (wrong_parts 1)
  check_parts m (p ∷ digest ∷ []) =
      if verify_signature m p digest then ok p else err invalid_signature
  check_parts m (p ∷ q ∷ r ∷ ps) = err (wrong_parts (length (p ∷ q ∷ r ∷ ps)))

  -- Validate, and the part that Verified then reads.
  unfoldable pub validate : MessageVerifier → List ℕ → Result VerifyError (List ℕ)
  unfolding check_parts split
  validate m msg = if is_empty msg then err empty_message else check_parts m (split msg)

  abbrev pub decode : List ℕ → Result VerifyError P
  decode part = elim (c.from_base64 part) [
    | none ↦ err not_base64
    | some text ↦ elim (c.from_json text) [ none ↦ err not_json | some payload ↦ ok payload ]
  ]

  unfoldable pub verified : MessageVerifier → List ℕ → Result VerifyError P
  unfolding validate
  verified m msg = validate m msg >>= decode
