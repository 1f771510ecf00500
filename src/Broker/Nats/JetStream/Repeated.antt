-- ===== src/Broker/Nats/JetStream/Repeated.antt =====
-- What broker/nats.go reaches by repeating an operation.
use anycable_go.Prelude.{
  Bool-cases, Result, arith, false, inl, inr, suc, true, zero, ℕ, ◌+◌, ◌<◌, ◌≡◌, ◌≤◌,
}
use anycable_go.Broker.Nats.JetStream.{JsError, should_retry_on_error, retry_on_error}

module _ {S A : Type 0} (cooldown : ℕ) (op : ℕ → S → Result JsError A × S) where
  -- What every try keeps is kept.
  pub retry_on_error_keeps :
      (P : S → Type 0) (kept : (t : ℕ) (s : S) → P s → P (op t s).1) (attempts now : ℕ) (s : S)
      → P s
      → P (retry_on_error cooldown op attempts now s).1
  unfolding retry_on_error
  retry_on_error_keeps P kept zero now s p = kept now s p
  retry_on_error_keeps P kept (suc n) now s p =
      elim (Bool-cases (should_retry_on_error (op now s).0)) [
        | inl again ↦
            rw (again, retry_on_error)
              (retry_on_error_keeps P kept n (now + cooldown) (op now s).1 (kept now s p))
        | inr settled ↦ rw (settled, retry_on_error) (kept now s p)
      ]

  -- `down` counts the tries that still fail with a temporary error. If there are no more of these
  -- than attempts, the last try is not one of them.
  pub retry_on_error_recovers :
      (down : S → ℕ)
      (falls : (t : ℕ) (s : S) → should_retry_on_error (op t s).0 ≡ true → down (op t s).1 < down s)
      (attempts now : ℕ) (s : S)
      → down s ≤ attempts
      → should_retry_on_error (retry_on_error cooldown op attempts now s).0 ≡ false
  unfolding retry_on_error
  retry_on_error_recovers down falls zero now s few =
      elim (Bool-cases (should_retry_on_error (op now s).0)) [
        | inl again ↦ absurd (omega (arith, falls now s again))
        | inr settled ↦ settled
      ]
  retry_on_error_recovers down falls (suc n) now s few =
      elim (Bool-cases (should_retry_on_error (op now s).0)) [
        | inl again ↦
            rw (again, retry_on_error)
              (retry_on_error_recovers down falls n (now + cooldown) (op now s).1
                (omega (arith, falls now s again)))
        | inr settled ↦ rw (settled, retry_on_error) settled
      ]
