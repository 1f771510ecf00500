-- ===== src/Broker/Nats/Publish/Numbered.antt =====
-- HandleBroadcast of broker/nats.go: the offset of a message is its number in JetStream.
use anycable_go.Prelude.{
  List, Result, Result-cases, [], ap, false, inl, inr, ok, panic, sym, ℕ, ◌∷◌, ◌≡◌, ◌⊎◌,
}
use anycable_go.Common.{StreamMessage, is_transient}
use anycable_go.Broker.Calls
use anycable_go.Broker.Calls.{Call}
use anycable_go.Broker.Nats.JetStream.{JetStream}
use anycable_go.Broker.Nats.Streams.Numbered.{add-published}
use anycable_go.Broker.Nats.Streams.{Nats, initialized, add, prefixed}
use anycable_go.Broker.Nats.Publish.{Deadlock, handle_broadcast, ready_error}
use anycable_go.Broker.Memory.Publish.{stamped}

module _ {J C B : Type 0} (js : JetStream J C B) where
  abbrev calls_of : Result Deadlock (List Call × Nats J C B) → List Call
  calls_of (ok (calls, n)) = calls
  calls_of r = []

  panic-ne-ok :
      {r : List Call × Nats J C B}
      → ¬ (◌≡◌ {A = Result Deadlock (List Call × Nats J C B)} panic (ok r))
  panic-ne-ok e = cc

  -- Of a message that is not transient, once JetStream is ready, either nothing is broadcast, or it
  -- is broadcast once, as it was given, with the broker's epoch and with the number under which
  -- JetStream has acknowledged it in the stream of its name.
  pub handle_broadcast_numbers :
      (now : ℕ) (msg : StreamMessage) (n n' : Nats J C B) (calls : List Call)
      → is_transient msg ≡ false
      → n.ready ≡ initialized
      → handle_broadcast js now msg n ≡ ok (calls, n')
      → (calls ≡ [])
        ⊎ ((j : J) × (seq : ℕ) × ((js.publish (prefixed msg.stream) msg.body j).0 ≡ ok seq)
            × (calls ≡ Calls.broadcast (stamped msg n.epoch seq) ∷ []))
  unfolding handle_broadcast ready_error
  handle_broadcast_numbers now msg n n' calls lasting ready done =
      let r = add js now msg.stream msg.body n in
      let ran = rw (lasting, ready) at done in
      elim (Result-cases r.0) [
        | inl (seq, added) ↦
            let (j, there, same) =
              add-published js now msg.stream msg.body n r.1 seq (ap (λ x. (x, r.1)) added) in
            let sent = ap calls_of (rw added at ran) in inr (j, seq, there, rw same at (sym sent))
        | inr (inl (e, lost)) ↦ inl (sym (ap calls_of (rw lost at ran)))
        | inr (inr crash) ↦ absurd (panic-ne-ok (rw crash at ran))
      ]
