-- ===== src/Broker/Nats/Publish/Backlog.antt =====
-- The backlog of broker/nats.go: what is published before JetStream can be reached.
use anycable_go.Prelude.{
  All, List, [], ap, err, false, none, ok, refl, some, true, ℕ, ◌++◌, ◌>>=◌, ◌∷◌, ◌≡◌,
}
use anycable_go.Common.{StreamMessage, is_transient}
use anycable_go.Broker.Nats.JetStream.{JetStream, JsError}
use anycable_go.Broker.Nats.Streams.{Nats, initializing, initialized, failed}
use anycable_go.Broker.Nats.Publish.{
  backlog_locked, backlog_add, backlog_flush, flush_all, handle_broadcast, finish_start,
  ready_error,
}

module _ {J C B : Type 0} (js : JetStream J C B) where
  flush_all_locked :
      (now : ℕ) (e : JsError) (msg : StreamMessage) (msgs : List StreamMessage) (n : Nats J C B)
      → is_transient msg ≡ false
      → n.backlog_held ≡ true
      → n.ready ≡ failed e
      → flush_all js now (msg ∷ msgs) n ≡ err backlog_locked
  unfolding flush_all handle_broadcast backlog_add ready_error
  flush_all_locked now e msg msgs n lasting held away = rw (lasting, away, held) refl

  flush_all_last :
      (now : ℕ) (e : JsError) (msg : StreamMessage) (msgs : List StreamMessage) (n : Nats J C B)
      → All (λ m. is_transient m ≡ false) msgs
      → is_transient msg ≡ false
      → n.backlog_held ≡ true
      → n.ready ≡ failed e
      → flush_all js now (msgs ++ msg ∷ []) n ≡ err backlog_locked
  flush_all_last now e msg [] n all lasting held away =
      flush_all_locked now e msg [] n lasting held away
  flush_all_last now e msg (m ∷ ms) n all lasting held away =
      flush_all_locked now e m (ms ++ msg ∷ []) n all.0 held away

  -- A message that is not transient, published before JetStream is ready, is not broadcast but waits
  -- in the backlog. When the initialization then succeeds, nothing is broadcast and the backlog is
  -- as before. When it fails, the goroutine that flushes the backlog waits for ever for a lock that
  -- it holds itself.
  pub backlog_stuck :
      (now later : ℕ) (e : JsError) (msg : StreamMessage) (n : Nats J C B)
      → is_transient msg ≡ false
      → All (λ m. is_transient m ≡ false) n.backlog
      → n.backlog_held ≡ false
      → n.ready ≡ initializing
      → let n1 : Nats J C B = record n { backlog = n.backlog ++ msg ∷ [] } in
        (handle_broadcast js now msg n ≡ ok ([], n1))
        × (finish_start js later none n1 ≡ ok ([], record n1 { ready = initialized }))
        × (finish_start js later (some e) n1 ≡ err backlog_locked)
  unfolding handle_broadcast backlog_add finish_start backlog_flush ready_error
  backlog_stuck now later e msg n lasting all_lasting free early = (
    simp (lasting, early, free) refl,
    refl,
    simp free (
        ap (λ r. r >>= λ (calls, n'). ok (calls, record n' { backlog = []; backlog_held = false }))
          (flush_all_last later e msg n.backlog
            (record n { backlog = n.backlog ++ msg ∷ []; ready = failed e; backlog_held = true })
            all_lasting lasting refl refl)),
  )
