-- ===== src/Node/Obeys.antt =====
-- Reasoning about the pieces of a command of the node: a relation between the session before, the
-- effects and the session after, which holds of a sequence of pieces when it holds of each.
use anycable_go.Prelude.{
  Bool, List, Option, [], ap, false, if◌then◌else◌, none, refl, some, true, ◌++◌, ◌∙◌, ◌∷◌, ◌≡◌,
}
use anycable_go.Node.Steps.{
  Op, Session, Effect, ◌>>=◌, for_each, and_then, done, when, give, behind,
}

abbrev pub Change : Type 0 → Type 0 → Type 1
Change A M = Session → List (Effect A M) → Session → Type 0

-- From a session whose lock is free the piece ends with a value, with the lock free again, and in
-- the relation.
abbrev pub Obeys : {A M X : Type 0} → Change A M → Op A M X → Type 0
Obeys {A = A} {M = M} {X = X} R m =
    (s : Session)
    → s.locked ≡ false
    → (x : X) × (t : Session) × (es : List (Effect A M)) × (m s ≡ done x t es)
      × (t.locked ≡ false)
      × R s es t

-- A relation that holds of no change, and of two changes in a row.
pub record IsChange {A M : Type 0} (R : Change A M) : Type 0 where
  pub same : (s : Session) → R s [] s
  pub trans : (s t u : Session) (es fs : List (Effect A M)) → R s es t → R t fs u → R s (es ++ fs) u

module _ {A M : Type 0} (R : Change A M) (c : IsChange R) where
  pub Obeys-give : {X : Type 0} (x : X) → Obeys R (give x)
  Obeys-give x s free = (x, s, [], refl, free, c.same s)

  pub Obeys-bind :
      {X Y : Type 0} (m : Op A M X) (f : X → Op A M Y)
      → Obeys R m
      → ((x : X) → Obeys R (f x))
      → Obeys R (m >>= f)
  Obeys-bind m f h g s free =
      let (x, t, es, e, free', r) = h s free in
      let (y, u, fs, e', free'', r') = g x t free' in
      (
        y,
        u,
        es ++ fs,
        ap (λ o. and_then o f) e ∙ ap (behind es) e',
        free'',
        c.trans s t u es fs r r',
      )

  pub Obeys-for_each :
      {X : Type 0} (f : X → Op A M Unit) (xs : List X)
      → ((x : X) → Obeys R (f x))
      → Obeys R (for_each f xs)
  Obeys-for_each f [] h = Obeys-give tt
  Obeys-for_each f (x ∷ xs) h =
      Obeys-bind (f x) (λ u. for_each f xs) (h x) (λ u. Obeys-for_each f xs h)

  pub Obeys-if :
      {X : Type 0} (b : Bool) (m n : Op A M X)
      → Obeys R m
      → Obeys R n
      → Obeys R (if b then m else n)
  Obeys-if true m n h g = h
  Obeys-if false m n h g = g

  pub Obeys-when : (b : Bool) (m : Op A M Unit) → Obeys R m → Obeys R (when b m)
  Obeys-when true m h = h
  Obeys-when false m h = Obeys-give tt

  pub Obeys-option :
      {X Y : Type 0} (o : Option X) (m : Op A M Y) (f : X → Op A M Y)
      → Obeys R m
      → ((x : X) → Obeys R (f x))
      → Obeys R (elim o [ none ↦ m | some x ↦ f x ])
  Obeys-option none m f h g = h
  Obeys-option (some x) m f h g = g x
