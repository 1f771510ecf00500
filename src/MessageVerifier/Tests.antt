-- ===== src/MessageVerifier/Tests.antt =====
-- A text that is signed and read back.
use anycable_go.Prelude.{List, [], ok, refl, some, ℕ, ◌++◌, ◌∷◌, ◌≡◌}
use anycable_go.MessageVerifier.{Codecs, MessageVerifier, generate, verified, decode, sign, dash}
use anycable_go.MessageVerifier.RoundTrip.{verified_sound}

-- Payloads are texts, and every text stands for itself.
abbrev plain : Codecs (List ℕ)
plain = record {
  hmac = λ key text. key ++ text;
  base64 = λ text. text;
  from_base64 = λ text. some text;
  to_json = λ payload. some payload;
  from_json = λ text. some text;
}

abbrev verifier : MessageVerifier
verifier = record { key = b'k' ∷ [] }

abbrev signed : List ℕ
signed = b'h' ∷ b'i' ∷ dash ∷ dash ∷ b'6' ∷ b'b' ∷ b'6' ∷ b'8' ∷ b'6' ∷ b'9' ∷ []

generated : generate plain verifier (b'h' ∷ b'i' ∷ []) ≡ ok signed
unfolding generate
generated = refl

verified_sound_example :
    (text : List ℕ) × (signed ≡ text ++ dash ∷ dash ∷ sign plain verifier text)
    × (decode plain text ≡ ok (b'h' ∷ b'i' ∷ []))
unfolding verified
verified_sound_example = verified_sound plain verifier signed (b'h' ∷ b'i' ∷ []) refl
