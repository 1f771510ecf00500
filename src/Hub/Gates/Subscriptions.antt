-- ===== src/Hub/Gates/Subscriptions.antt =====
-- The subscriptions of hub/gate.go as a set of streams, sessions and identifiers.
use anycable_go.Prelude.{
  ==_iff, Bool, Bool-cases, Eq, Option, String, [], arith, false, if◌then◌else◌, inl, inr, none,
  not, refl, some, true, ℕ, ◌&&◌, ◌==◌, ◌||◌, ◌∷◌, ◌≡◌, string_eq, nat_eq,
}
use anycable_go.Prelude.Dict.{Dict, delete, lookup, lookup-delete, lookup-put, put}
use anycable_go.Hub.Gates.{new_gate, inner, drop_inner, Gate, subscribe, unsubscribe}

abbrev pub is_some {ℓ} : {A : Type ℓ} → Option A → Bool
is_some none = false
is_some (some a) = true

-- The session is subscribed to the stream under the identifier.
unfoldable pub subscribed : String → ℕ → String → Gate → Bool
unfolding inner
subscribed stream session identifier g =
    is_some (lookup identifier (inner session (inner stream g.streams)))

pub subscribed-new_gate : (s : String) (r : ℕ) (i : String) → subscribed s r i new_gate ≡ false
unfolding subscribed inner lookup
subscribed-new_gate s r i = refl

module _ {ℓ κ} {K : Type ℓ} ⦃e : Eq K⦄ {J V : Type κ} where
  inner-put :
      (k j : K) (n : Dict J V) (m : Dict K (Dict J V))
      → inner j (put k n m) ≡ (if k == j then n else inner j m)
  unfolding inner
  inner-put k j n m = ground (arith, lookup-put k j n m)

  inner-drop_inner :
      (k j : K) (n : Dict J V) (m : Dict K (Dict J V))
      → inner j (drop_inner k n m) ≡ (if k == j then n else inner j m)
  unfolding drop_inner inner
  inner-drop_inner k j [] m = ground (arith, lookup-delete k j m)
  inner-drop_inner k j (x ∷ n) m = ground (arith, lookup-put k j (x ∷ n) m)

is_some-put {ℓ κ} :
    {K : Type ℓ} ⦃e : Eq K⦄ {V : Type κ} (k j : K) (v : V) (m : Dict K V)
    → is_some (lookup j (put k v m)) ≡ (k == j || is_some (lookup j m))
is_some-put k j v m = ground (arith, lookup-put k j v m)

is_some-delete {ℓ κ} :
    {K : Type ℓ} ⦃e : Eq K⦄ {V : Type κ} (k j : K) (m : Dict K V)
    → is_some (lookup j (delete k m)) ≡ (is_some (lookup j m) && not (k == j))
is_some-delete k j m = ground (arith, lookup-delete k j m)

-- After a subscription exactly one more triple of stream, session and identifier is subscribed,
-- unless it was already.
pub subscribed-subscribe :
    (session : ℕ) (stream identifier : String) (g : Gate) (r : ℕ) (s i : String)
    → subscribed s r i (subscribe session stream identifier g)
      ≡ ((stream == s && session == r && identifier == i) || subscribed s r i g)
subscribed-subscribe session stream identifier g r s i =
    let sessions = inner stream g.streams in
    let ids = inner session sessions in
    let written = put session (put identifier true ids) sessions in
    let outer = inner-put stream s written g.streams in
    let middle = inner-put session r (put identifier true ids) sessions in
    unfold subscribed subscribe in
    rw outer (elim (Bool-cases (stream == s)) [
      | inl here ↦
          let same : stream ≡ s = (==_iff stream s).0 here in
          rw (here, middle)
            (elim (Bool-cases (session == r)) [
              | inl its ↦
                  let one : session ≡ r = (==_iff session r).0 its in
                  rw (its, is_some-put, ← same, ← one) refl
              | inr other ↦ rw (other, ← same) refl
            ])
      | inr there ↦ rw there refl
    ])

module _ (session : ℕ) (stream identifier : String) (g : Gate) where
  abbrev pub ids : Dict String Bool
  ids = inner session (inner stream g.streams)

  -- The gate without the identifier, once it is known to be there.
  abbrev pub without : Gate
  without = record g {
    streams =
        drop_inner stream (drop_inner session (delete identifier ids) (inner stream g.streams))
          g.streams;
  }

  pub unsubscribe-missing :
      subscribed stream session identifier g ≡ false → unsubscribe session stream identifier g ≡ g
  unfolding unsubscribe subscribed inner lookup
  unsubscribe-missing h = ground arith

  pub unsubscribe-found :
      subscribed stream session identifier g ≡ true
      → unsubscribe session stream identifier g ≡ without
  unfolding unsubscribe subscribed inner lookup
  unsubscribe-found h = ground arith

  subscribed-missing :
      (r : ℕ) (s i : String)
      → subscribed stream session identifier g ≡ false
      → subscribed s r i g
        ≡ (subscribed s r i g && not (stream == s && session == r && identifier == i))
  subscribed-missing r s i h =
      ground (arith, ==_iff stream s, ==_iff session r, ==_iff identifier i)

  subscribed-without :
      (r : ℕ) (s i : String)
      → subscribed s r i without
        ≡ (subscribed s r i g && not (stream == s && session == r && identifier == i))
  subscribed-without r s i =
      let sessions = inner stream g.streams in
      let rest = delete identifier ids in
      let outer = inner-drop_inner stream s (drop_inner session rest sessions) g.streams in
      let middle = inner-drop_inner session r rest sessions in
      unfold subscribed in
      rw outer (elim (Bool-cases (stream == s)) [
        | inl here ↦
            let same : stream ≡ s = (==_iff stream s).0 here in
            rw (here, middle)
              (elim (Bool-cases (session == r)) [
                | inl its ↦
                    let one : session ≡ r = (==_iff session r).0 its in
                    rw (its, is_some-delete, ← same, ← one) refl
                | inr other ↦ rw (other, ← same) (ground arith)
              ])
        | inr there ↦ rw there (ground arith)
      ])

  -- After an unsubscription the one triple is not subscribed, and every other is as before.
  pub subscribed-unsubscribe :
      (r : ℕ) (s i : String)
      → subscribed s r i (unsubscribe session stream identifier g)
        ≡ (subscribed s r i g && not (stream == s && session == r && identifier == i))
  subscribed-unsubscribe r s i = elim (Bool-cases (subscribed stream session identifier g)) [
    | inl found ↦ rw (unsubscribe-found found) (subscribed-without r s i)
    | inr missing ↦ rw (unsubscribe-missing missing) (subscribed-missing r s i missing)
  ]
