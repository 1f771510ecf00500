-- ===== src/MessageVerifier/Split.antt =====
-- Splitting by "--", and putting together again.
use anycable_go.Prelude.{
  All, Bool-cases, List, [], ap, arith, false, inl, inr, refl, true, ℕ, ◌%◌, ◌++◌, ◌/◌, ◌==◌, ◌∙◌,
  ◌∷◌, ◌≡◌, string_eq, nat_eq,
}
use anycable_go.MessageVerifier.{
  split, dash, is_separator, cons_head, to_hex, hex_digit, same_bytes,
}

-- No byte is the dash.
abbrev pub NoDash : List ℕ → Type 0
NoDash = All (λ x. (x == dash) ≡ false)

pub split-NoDash : (xs : List ℕ) → NoDash xs → split xs ≡ xs ∷ []
unfolding split
split-NoDash [] h = refl
split-NoDash (x ∷ []) h = refl
split-NoDash (x ∷ y ∷ xs) h = ground (arith, h.0, split-NoDash (y ∷ xs) h.1)

pub split-append : (xs ys : List ℕ) → NoDash xs → split (xs ++ dash ∷ dash ∷ ys) ≡ xs ∷ split ys
unfolding split
split-append [] ys h = refl
split-append (x ∷ []) ys h = ground (arith, h.0)
split-append (x ∷ y ∷ xs) ys h = ground (arith, h.0, split-append (y ∷ xs) ys h.1)

unfoldable pub join : List (List ℕ) → List ℕ
join [] = []
join (p ∷ []) = p
join (p ∷ q ∷ ps) = p ++ dash ∷ dash ∷ join (q ∷ ps)

-- There is always a part.
abbrev IsNonempty : List (List ℕ) → Type 0
IsNonempty [] = ⊥
IsNonempty (p ∷ ps) = Unit

cons_head-IsNonempty : (x : ℕ) (ps : List (List ℕ)) → IsNonempty (cons_head x ps)
cons_head-IsNonempty x [] = tt
cons_head-IsNonempty x (p ∷ ps) = tt

split-IsNonempty : (xs : List ℕ) → IsNonempty (split xs)
unfolding split
split-IsNonempty [] = tt
split-IsNonempty (x ∷ []) = tt
split-IsNonempty (x ∷ y ∷ xs) = elim (Bool-cases (is_separator x y)) [
  | inl yes_ ↦ rw (split, yes_) tt
  | inr no_ ↦ rw (split, no_) (cons_head-IsNonempty x (split (y ∷ xs)))
]

join-cons_head : (x : ℕ) (ps : List (List ℕ)) → IsNonempty ps → join (cons_head x ps) ≡ x ∷ join ps
unfolding join
join-cons_head x [] h = absurd h
join-cons_head x (p ∷ []) h = refl
join-cons_head x (p ∷ q ∷ ps) h = refl

join-empty : (ps : List (List ℕ)) → IsNonempty ps → join ([] ∷ ps) ≡ dash ∷ dash ∷ join ps
unfolding join
join-empty [] h = absurd h
join-empty (p ∷ ps) h = refl

join-one : (p : List ℕ) → join (p ∷ []) ≡ p
unfolding join
join-one p = refl

pub join-split : (xs : List ℕ) → join (split xs) ≡ xs
unfolding split
join-split [] = join-one []
join-split (x ∷ []) = join-one (x ∷ [])
join-split (x ∷ y ∷ xs) = elim (Bool-cases (is_separator x y)) [
  | inl same ↦
      rw (split, same)
        (join-empty (split xs) (split-IsNonempty xs) ∙ ground (arith, same, join-split xs))
  | inr other ↦
      rw (split, other)
        (join-cons_head x (split (y ∷ xs)) (split-IsNonempty (y ∷ xs))
          ∙ ap (λ r. x ∷ r) (join-split (y ∷ xs)))
]

hex_digit-NoDash : (n : ℕ) → (hex_digit n == dash) ≡ false
unfolding hex_digit
hex_digit-NoDash n = ground arith

pub to_hex-NoDash : (bs : List ℕ) → NoDash (to_hex bs)
unfolding to_hex
to_hex-NoDash [] = tt
to_hex-NoDash (b ∷ bs) = (hex_digit-NoDash (b / 16), (hex_digit-NoDash (b % 16), to_hex-NoDash bs))

pub same_bytes_refl : (xs : List ℕ) → same_bytes xs xs ≡ true
unfolding same_bytes
same_bytes_refl [] = refl
same_bytes_refl (x ∷ xs) = ground (arith, same_bytes_refl xs)

pub same_bytes-eq : (xs ys : List ℕ) → same_bytes xs ys ≡ true → xs ≡ ys
unfolding same_bytes
same_bytes-eq [] [] h = refl
same_bytes-eq [] (y ∷ ys) h = cc
same_bytes-eq (x ∷ xs) [] h = cc
same_bytes-eq (x ∷ xs) (y ∷ ys) h = ground (arith, h, same_bytes-eq xs ys)
