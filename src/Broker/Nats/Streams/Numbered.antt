-- ===== src/Broker/Nats/Streams/Numbered.antt =====
-- What add of broker/nats.go gives back: the number of the message in JetStream.
use anycable_go.Prelude.{Result-cases, String, ap, arith, inl, inr, ok, refl, sym, ℕ, ◌∙◌, ◌≡◌}
use anycable_go.Broker.Nats.JetStream.{JetStream}
use anycable_go.Broker.Nats.JetStream.Repeated.{retry_on_error_keeps}
use anycable_go.Broker.Nats.Streams.{
  Nats, add, publish_message, ensure_stream_exists, ensure_once, prefixed,
}

module _ {J C B : Type 0} (js : JetStream J C B) where
  ensure_stream_exists-epoch :
      (now : ℕ) (stream : String) (n : Nats J C B)
      → (ensure_stream_exists js now stream n).1.epoch ≡ n.epoch
  unfolding ensure_stream_exists ensure_once
  ensure_stream_exists-epoch now stream n =
      retry_on_error_keeps 500 (ensure_once js stream) (λ s. s.epoch ≡ n.epoch) (λ t s same. same) 5
        now n refl

  publish_message-published :
      (now : ℕ) (stream body : String) (n n' : Nats J C B) (seq : ℕ)
      → publish_message js now stream body n ≡ (ok seq, n')
      → ((js.publish (prefixed stream) body n.outside.service).0 ≡ ok seq) × (n'.epoch ≡ n.epoch)
  unfolding publish_message
  publish_message-published now stream body n n' seq done =
      (ap (λ r. r.0) done, sym (ap (λ r. r.1.epoch) done))

  pub add-published :
      (now : ℕ) (stream body : String) (n n' : Nats J C B) (seq : ℕ)
      → add js now stream body n ≡ (ok seq, n')
      → (j : J) × ((js.publish (prefixed stream) body j).0 ≡ ok seq) × (n'.epoch ≡ n.epoch)
  unfolding add
  add-published now stream body n n' seq done =
      let kept = ensure_stream_exists-epoch now stream n in
      let n1 = (ensure_stream_exists js now stream n).1 in
      elim (Result-cases (ensure_stream_exists js now stream n).0) [
        | inl (name, ready) ↦
            let (there, same) =
              publish_message-published now stream body n1 n' seq (rw (ready, add) at done) in
            (n1.outside.service, there, same ∙ kept)
        | inr rest ↦ ground arith
      ]
