-- ===== src/MessageVerifier/RoundTrip.antt =====
-- What a verifier of utils/message_verifier.go accepts, and that it accepts what it has signed.
use anycable_go.Prelude.{
  Bool-cases, List, Result, [], ap, arith, false, inl, inr, is_empty, panic, refl, some, sym, true,
  ℕ, ◌++◌, ◌>>=◌, ◌∙◌, ◌∷◌, ◌≡◌,
}
use anycable_go.MessageVerifier.{
  Codecs, VerifyError, MessageVerifier, split, dash, sign, generate, verify_signature, check_parts,
  validate, decode, verified, to_hex, same_bytes, err, ok,
}
use anycable_go.MessageVerifier.Split.{
  NoDash, split-NoDash, split-append, join, join-split, to_hex-NoDash, same_bytes_refl,
  same_bytes-eq,
}

is_empty-signed : (xs ys : List ℕ) (x : ℕ) → is_empty (xs ++ x ∷ ys) ≡ false
is_empty-signed [] ys x = refl
is_empty-signed (z ∷ xs) ys x = refl

-- Inversion of a successful bind.
>>=-eq-ok :
    {A B : Type 0} (r : Result VerifyError A) (f : A → Result VerifyError B) {b : B}
    → (r >>= f) ≡ ok b
    → (a : A) × (r ≡ ok a) × (f a ≡ ok b)
>>=-eq-ok (ok a) f h = (a, refl, h)
>>=-eq-ok (err e) f h = cc
>>=-eq-ok panic f h = cc

module _ {P : Type 0} (c : Codecs P) (m : MessageVerifier) where
  sign-NoDash : (text : List ℕ) → NoDash (sign c m text)
  unfolding sign
  sign-NoDash text = to_hex-NoDash (c.hmac m.key text)

  verify_signature-sign : (text : List ℕ) → verify_signature c m text (sign c m text) ≡ true
  unfolding verify_signature sign
  verify_signature-sign text = same_bytes_refl (to_hex (c.hmac m.key text))

  validate-signed :
      (text : List ℕ) → NoDash text → validate c m (text ++ dash ∷ dash ∷ sign c m text) ≡ ok text
  unfolding validate check_parts
  validate-signed text h =
      let parts : split (text ++ dash ∷ dash ∷ sign c m text) ≡ text ∷ sign c m text ∷ [] =
        split-append text (sign c m text) h
        ∙ ap (λ r. text ∷ r) (split-NoDash (sign c m text) (sign-NoDash text)) in
      rw (validate, is_empty-signed text _ dash, parts, check_parts, verify_signature-sign text)
        refl

  -- With a base64 that has no dash in its alphabet and is read back, and with a JSON that is read
  -- back, a payload that can be written is signed, and the verifier with the same key gets it from
  -- the signed text.
  pub verified-generate :
      (payload : P) (text : List ℕ)
      → c.to_json payload ≡ some text
      → c.from_json text ≡ some payload
      → c.from_base64 (c.base64 text) ≡ some text
      → NoDash (c.base64 text)
      → (msg : List ℕ) × (generate c m payload ≡ ok msg) × (verified c m msg ≡ ok payload)
  unfolding generate verified
  verified-generate payload text writes reads decodes clean = (
    c.base64 text ++ dash ∷ dash ∷ sign c m (c.base64 text),
    rw (generate, writes) refl,
    rw (verified, validate-signed (c.base64 text) clean) (ground (arith, decodes, reads)),
  )

  check_parts_sound :
      (ps : List (List ℕ)) (text : List ℕ)
      → check_parts c m ps ≡ ok text
      → ps ≡ text ∷ sign c m text ∷ []
  unfolding check_parts sign
  check_parts_sound [] text h = cc
  check_parts_sound (p ∷ []) text h = cc
  check_parts_sound (p ∷ q ∷ r ∷ ps) text h = cc
  check_parts_sound (p ∷ digest ∷ []) text h =
      elim (Bool-cases (same_bytes (to_hex (c.hmac m.key p)) digest)) [
        | inl same ↦
            let one : p ≡ text = ground (arith, h, same) in
            cc (one, same_bytes-eq (to_hex (c.hmac m.key p)) digest same)
        | inr other ↦ ground (arith, h, other)
      ]

  validate_sound :
      (msg text : List ℕ) → validate c m msg ≡ ok text → msg ≡ text ++ dash ∷ dash ∷ sign c m text
  unfolding validate join
  validate_sound msg text h = elim (Bool-cases (is_empty msg)) [
    | inl nothing ↦ ground (arith, h, nothing)
    | inr some_ ↦
        let parts : split msg ≡ text ∷ sign c m text ∷ [] =
          check_parts_sound (split msg) text (ground (arith, h, some_)) in
        sym (join-split msg) ∙ ap join parts
  ]

  -- A message that is verified is a text, a separator and the signature of the text with this key,
  -- the text being what the payload is read from; so what has another signature, or none, or more
  -- parts, is refused.
  pub verified_sound :
      (msg : List ℕ) (payload : P)
      → verified c m msg ≡ ok payload
      → (text : List ℕ) × (msg ≡ text ++ dash ∷ dash ∷ sign c m text) × (decode c text ≡ ok payload)
  unfolding verified
  verified_sound msg payload h =
      let (text, checked, read) = >>=-eq-ok (validate c m msg) (decode c) h in
      (text, validate_sound msg text checked, read)
