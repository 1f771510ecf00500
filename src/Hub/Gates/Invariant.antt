-- ===== src/Hub/Gates/Invariant.antt =====
-- What the maps of hub/gate.go keep: unique keys, and no stream or session without a subscription.
use anycable_go.Prelude.{
  Bool, Bool-cases, Eq, Option-cases, String, [], false, inl, inr, is_empty, refl, true, ℕ, ◌∷◌,
  ◌≡◌, ◌⊎◌, string_eq, nat_eq,
}
use anycable_go.Prelude.Dict.{
  Dict, IsDict, Values, delete, delete-IsDict, delete-Values, is_empty-put, lookup, lookup-Values,
  put, put-IsDict, put-Values,
}
use anycable_go.Hub.Gates.Subscriptions.{
  without, subscribed, unsubscribe-found, unsubscribe-missing,
}
use anycable_go.Hub.Gates.{inner, drop_inner, Gate, subscribe, unsubscribe}

abbrev pub IsIds : Dict String Bool → Type 0
IsIds ids = IsDict ids × (is_empty ids ≡ false)

abbrev pub IsSessions : Dict ℕ (Dict String Bool) → Type 0
IsSessions ss = IsDict ss × (is_empty ss ≡ false) × Values IsIds ss

abbrev pub IsGate : Gate → Type 0
IsGate g = IsDict g.streams × Values IsSessions g.streams

module _ {ℓ} {K : Type ℓ} ⦃e : Eq K⦄ {J V : Type 0} (P : Dict J V → Type 0) where
  put-Values_of :
      (k : K) (n : Dict J V) (m : Dict K (Dict J V))
      → P n
      → IsDict m × Values P m
      → IsDict (put k n m) × (is_empty (put k n m) ≡ false) × Values P (put k n m)
  put-Values_of k n m p h = (put-IsDict k n m h.0, is_empty-put k n m, put-Values P k n m p h.1)

  -- Dropping an inner map that became empty keeps the property of those that are not.
  drop_inner-Values :
      (k : K) (n : Dict J V) (m : Dict K (Dict J V))
      → (is_empty n ≡ false → P n)
      → IsDict m × Values P m
      → IsDict (drop_inner k n m) × Values P (drop_inner k n m)
  unfolding drop_inner
  drop_inner-Values k [] m p h = (delete-IsDict k m h.0, delete-Values P k m h.1)
  drop_inner-Values k (x ∷ n) m p h =
      (put-IsDict k (x ∷ n) m h.0, put-Values P k (x ∷ n) m (p refl) h.1)

  inner-Values : (k : K) (m : Dict K (Dict J V)) → Values P m → (inner k m ≡ []) ⊎ P (inner k m)
  unfolding inner
  inner-Values k m h = elim (Option-cases (lookup k m)) [
    | inl missing ↦ inl (rw (missing, inner))
    | inr (n, found) ↦ inr (rw (found, inner) (lookup-Values P k n m h found))
  ]

IsDict-of_ids : (ids : Dict String Bool) → (ids ≡ []) ⊎ IsIds ids → IsDict ids
IsDict-of_ids ids (inl e) = rw e tt
IsDict-of_ids ids (inr v) = v.0

parts_of_sessions :
    (ss : Dict ℕ (Dict String Bool)) → (ss ≡ []) ⊎ IsSessions ss → IsDict ss × Values IsIds ss
parts_of_sessions ss (inl e) = rw e (tt, tt)
parts_of_sessions ss (inr v) = (v.0, v.2)

pub inner-IsDict : (ss : Dict ℕ (Dict String Bool)) (r : ℕ) → Values IsIds ss → IsDict (inner r ss)
inner-IsDict ss r v = IsDict-of_ids (inner r ss) (inner-Values IsIds r ss v)

pub inner_sessions :
    (stream : String) (g : Gate)
    → IsGate g
    → IsDict (inner stream g.streams) × Values IsIds (inner stream g.streams)
inner_sessions stream g v =
    parts_of_sessions (inner stream g.streams) (inner-Values IsSessions stream g.streams v.1)

module _ (session : ℕ) (stream identifier : String) (g : Gate) (v : IsGate g) where
  subscribe-IsGate : IsGate (subscribe session stream identifier g)
  subscribe-IsGate =
      let sessions = inner stream g.streams in
      let ids = inner session sessions in
      let parts = inner_sessions stream g v in
      let ids' : IsIds (put identifier true ids) = (
        put-IsDict identifier true ids (inner-IsDict sessions session parts.1),
        is_empty-put identifier true ids,
      ) in
      let sessions' = put-Values_of IsIds session (put identifier true ids) sessions ids' parts in
      let streams' =
        put-Values_of IsSessions stream (put session (put identifier true ids) sessions) g.streams
          sessions' v in
      unfold subscribe in (streams'.0, streams'.2)

  without-IsGate : IsGate (without session stream identifier g)
  without-IsGate =
      let sessions = inner stream g.streams in
      let rest = delete identifier (inner session sessions) in
      let parts = inner_sessions stream g v in
      let ids' =
        delete-IsDict identifier (inner session sessions) (inner-IsDict sessions session parts.1) in
      let sessions' = drop_inner-Values IsIds session rest sessions (λ h. (ids', h)) parts in
      drop_inner-Values IsSessions stream (drop_inner session rest sessions) g.streams
        (λ h. (sessions'.0, h, sessions'.1)) v

  -- Both operations keep the maps' keys unique and leave no stream and no session without a
  -- subscription.
  pub unsubscribe-IsGate :
      IsGate (subscribe session stream identifier g)
      × IsGate (unsubscribe session stream identifier g)
  unsubscribe-IsGate = (
    subscribe-IsGate,
    (elim (Bool-cases (subscribed stream session identifier g)) [
      | inl found ↦ rw (unsubscribe-found session stream identifier g found) without-IsGate
      | inr missing ↦ rw (unsubscribe-missing session stream identifier g missing) v
    ]),
  )
