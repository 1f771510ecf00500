-- ===== src/Hub/Index.antt =====
-- `index` of hub/hub.go: the gate of a stream, by the FNV-1a hash of its bytes.
use anycable_go.Prelude.{
  List, String, [], arith, if◌then◌else◌, ltb, refl, ℕ, ◌%◌, ◌*◌, ◌++◌, ◌+◌, ◌/◌, ◌<◌, ◌==◌, ◌^◌,
  ◌∷◌, ◌≡◌, string_eq, nat_eq,
}
use Prim.Native.Nat.{bit_xor}
use Prim.Native.Char.{code}

-- The bytes of a character in UTF-8.
abbrev utf8 : ℕ → List ℕ
utf8 c =
    if ltb c 0x80
    then c ∷ []
    else if ltb c 0x800
    then (0xc0 + c / 64) ∷ (0x80 + c % 64) ∷ []
    else if ltb c 0x10000
    then (0xe0 + c / 4096) ∷ (0x80 + c / 64 % 64) ∷ (0x80 + c % 64) ∷ []
    else (0xf0 + c / 262144) ∷ (0x80 + c / 4096 % 64) ∷ (0x80 + c / 64 % 64) ∷ (0x80 + c % 64) ∷ []

-- `[]byte(stream)`.
unfoldable pub bytes : String → List ℕ
bytes String.[] = []
bytes (String.◌∷◌ c s) = utf8 (code c) ++ bytes s

-- fnv.New64a: the hash after each byte.
fnv64a : ℕ → List ℕ → ℕ
fnv64a h [] = h
fnv64a h (b ∷ bs) = fnv64a (bit_xor h b * 1099511628211 % 2 ^ 64) bs

abbrev offset64 : ℕ
offset64 = 14695981039346656037

unfoldable pub index : String → ℕ → ℕ
unfolding bytes fnv64a
index stream size = if size == 1 then 0 else fnv64a offset64 (bytes stream) % size

-- With at least one gate the index is in range.
pub index-lt : (stream : String) (size : ℕ) → 0 < size → index stream size < size
unfolding index
index-lt stream size h = grind arith

-- The published test vector of FNV-1a for "a".
fnv64a_a : fnv64a offset64 (bytes "a") ≡ 0xaf63dc4c8601ec8c
unfolding fnv64a bytes
fnv64a_a = refl
