-- ===== src/Prelude/Members.antt =====
-- Slices used as sets: `slices.Contains`, and the loops that cut one value out.
use mathlib.Core.Path.{◌≡◌, refl}
use mathlib.Core.Bool.{Bool, true, false, ◌||◌}
use mathlib.Core.List.{List, [], ◌∷◌, ◌++◌}
use native.Mathlib.Omega.{arith}
use anycable_go.Prelude.Tests.{Eq, ◌==◌, if◌then◌else◌}
use anycable_go.Prelude.Lists.{is_empty}

module _ {ℓ} {A : Type ℓ} ⦃e : Eq A⦄ where
  unfoldable pub contains : A → List A → Bool
  contains a [] = false
  contains a (x ∷ xs) = x == a || contains a xs

  -- `append(l[:i], l[i+1:]...)` at the first place `i` of the value, if it is there.
  unfoldable pub remove_first : A → List A → List A
  remove_first a [] = []
  remove_first a (x ∷ xs) = if x == a then xs else x ∷ remove_first a xs

  abbrev pub Distinct : List A → Type 0
  Distinct [] = Unit
  Distinct (x ∷ xs) = (contains x xs ≡ false) × Distinct xs

  pub contains-append :
      (a : A) (xs ys : List A) → contains a (xs ++ ys) ≡ (contains a xs || contains a ys)
  unfolding contains
  contains-append a [] ys = refl
  contains-append a (x ∷ xs) ys = ground (arith, contains-append a xs ys)

  pub contains-remove_first :
      (a b : A) (xs : List A)
      → Distinct xs
      → contains b (remove_first a xs) ≡ (if a == b then false else contains b xs)
  unfolding contains remove_first
  contains-remove_first a b [] d = ground arith
  contains-remove_first a b (x ∷ xs) d = ground (
    arith,
    e.is_same_iff a b,
    e.is_same_iff x a,
    e.is_same_iff x b,
    contains-remove_first a b xs d.1,
  )

  pub remove_first-Distinct : (a : A) (xs : List A) → Distinct xs → Distinct (remove_first a xs)
  unfolding remove_first
  remove_first-Distinct a [] d = tt
  remove_first-Distinct a (x ∷ xs) d = ground (
    arith,
    e.is_same_iff a x,
    e.is_same_iff x a,
    contains-remove_first a x xs d.1,
    remove_first-Distinct a xs d.1,
  )

  pub append-Distinct :
      (a : A) (xs : List A) → contains a xs ≡ false → Distinct xs → Distinct (xs ++ a ∷ [])
  unfolding contains
  append-Distinct a [] h d = (refl, tt)
  append-Distinct a (x ∷ xs) h d = ground (
    arith,
    e.is_same_iff a x,
    e.is_same_iff x a,
    contains-append x xs (a ∷ []),
    append-Distinct a xs,
  )

  pub contains-is_empty : (a : A) (xs : List A) → is_empty xs ≡ true → contains a xs ≡ false
  unfolding contains
  contains-is_empty a [] h = refl
  contains-is_empty a (x ∷ xs) h = cc
