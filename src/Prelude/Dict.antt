-- ===== src/Prelude/Dict.antt =====
-- Go maps as association lists: what `m[k]`, `m[k] = v`, `delete(m, k)` and `len(m)` do.
use mathlib.Core.Path.{◌≡◌, refl, subst}
use mathlib.Core.Logic.{inl, inr}
use mathlib.Core.Bool.{true, false}
use mathlib.Core.Option.{Option, none, some}
use mathlib.Core.List.{List, [], ◌∷◌}
use native.Mathlib.Omega.{arith}
use anycable_go.Prelude.Lists.{is_empty}
use anycable_go.Prelude.Tests.{
  Bool-cases, some_injective, none-ne-some, ==_refl, Eq, ◌==◌, if◌then◌else◌,
}

abbrev pub Dict {ℓ κ} : Type ℓ → Type κ → Type (ℓ ⊔ κ)
Dict K V = List (K × V)

module _ {ℓ κ} {K : Type ℓ} {V : Type κ} ⦃e : Eq K⦄ where
  unfoldable pub lookup : K → Dict K V → Option V
  lookup k [] = none
  lookup k ((j, v) ∷ m) = if j == k then some v else lookup k m

  unfoldable pub put : K → V → Dict K V → Dict K V
  put k v [] = (k, v) ∷ []
  put k v ((j, w) ∷ m) = if j == k then (k, v) ∷ m else (j, w) ∷ put k v m

  unfoldable pub delete : K → Dict K V → Dict K V
  delete k [] = []
  delete k ((j, w) ∷ m) = let rest = delete k m in if j == k then rest else (j, w) ∷ rest

  pub lookup-put :
      (k j : K) (v : V) (m : Dict K V)
      → lookup j (put k v m) ≡ (if k == j then some v else lookup j m)
  unfolding lookup put
  lookup-put k j v [] = refl
  lookup-put k j v ((i, w) ∷ m) =
      ground (arith, e.is_same_iff k j, e.is_same_iff i k, e.is_same_iff i j, lookup-put k j v m)

  pub lookup-delete :
      (k j : K) (m : Dict K V) → lookup j (delete k m) ≡ (if k == j then none else lookup j m)
  unfolding lookup delete
  lookup-delete k j [] = ground arith
  lookup-delete k j ((i, w) ∷ m) =
      ground (arith, e.is_same_iff k j, e.is_same_iff i k, e.is_same_iff i j, lookup-delete k j m)

  -- No key stands twice.
  abbrev pub IsDict : Dict K V → Type κ
  IsDict [] = Unit
  IsDict ((k, v) ∷ m) = (lookup k m ≡ none) × IsDict m

  pub put-IsDict : (k : K) (v : V) (m : Dict K V) → IsDict m → IsDict (put k v m)
  unfolding put lookup
  put-IsDict k v [] h = (refl, tt)
  put-IsDict k v ((j, w) ∷ m) h =
      ground (arith, e.is_same_iff j k, e.is_same_iff k j, lookup-put k j v m, put-IsDict k v m h.1)

  pub delete-IsDict : (k : K) (m : Dict K V) → IsDict m → IsDict (delete k m)
  unfolding delete
  delete-IsDict k [] h = tt
  delete-IsDict k ((j, w) ∷ m) h = ground (arith, lookup-delete k j m, delete-IsDict k m h.1)

  -- A property of every stored value.
  abbrev pub Values {μ} : (V → Type μ) → Dict K V → Type μ
  Values P [] = Unit
  Values P ((k, v) ∷ m) = P v × Values P m

  pub put-Values {μ} :
      (P : V → Type μ) (k : K) (v : V) (m : Dict K V) → P v → Values P m → Values P (put k v m)
  unfolding put
  put-Values P k v [] p h = (p, tt)
  put-Values P k v ((j, w) ∷ m) p h = elim (Bool-cases (j == k)) [
    | inl same ↦ rw (same, put) (p, h.1)
    | inr other ↦ rw (other, put) (h.0, put-Values P k v m p h.1)
  ]

  pub delete-Values {μ} :
      (P : V → Type μ) (k : K) (m : Dict K V) → Values P m → Values P (delete k m)
  unfolding delete
  delete-Values P k [] h = tt
  delete-Values P k ((j, w) ∷ m) h = elim (Bool-cases (j == k)) [
    | inl same ↦ rw (same, delete) (delete-Values P k m h.1)
    | inr other ↦ rw (other, delete) (h.0, delete-Values P k m h.1)
  ]

  pub lookup-Values {μ} :
      (P : V → Type μ) (k : K) (v : V) (m : Dict K V) → Values P m → lookup k m ≡ some v → P v
  unfolding lookup
  lookup-Values P k v [] h e = absurd (none-ne-some e)
  lookup-Values P k v ((j, w) ∷ m) h e = elim (Bool-cases (j == k)) [
    | inl same ↦ subst P (some_injective (rw (same, lookup) at e)) h.0
    | inr other ↦ lookup-Values P k v m h.1 (rw (other, lookup) at e)
  ]

  pub put_twice : (k : K) (v w : V) (m : Dict K V) → put k v (put k w m) ≡ put k v m
  unfolding put
  put_twice k v w [] = ground (arith, ==_refl k)
  put_twice k v w ((j, x) ∷ m) = ground (arith, ==_refl k, put_twice k v w m)

  pub is_empty-put : (k : K) (v : V) (m : Dict K V) → is_empty (put k v m) ≡ false
  unfolding put
  is_empty-put k v [] = refl
  is_empty-put k v ((j, w) ∷ m) = ground arith

  pub lookup-is_empty : (k : K) (m : Dict K V) → is_empty m ≡ true → lookup k m ≡ none
  unfolding lookup
  lookup-is_empty k [] h = refl
  lookup-is_empty k (x ∷ m) h = cc
