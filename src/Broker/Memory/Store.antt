-- ===== src/Broker/Memory/Store.antt =====
-- Store of broker/memory.go: a message that another node has numbered.
use anycable_go.Prelude.{
  ==_refl, Option, String, err, false, leb, ok, refl, true, ℕ, ◌<◌, ◌≡◌, string_eq, nat_eq,
}
use anycable_go.Prelude.Dict.{lookup-put, put}
use anycable_go.Broker.Memstream.{Memstream, Entry, offset_taken}
use anycable_go.Broker.Memstream.Append.{Fits, get_or, appended, insert-appended, insert_taken}
use anycable_go.Broker.Memory.{Memory, stream_at, store, in_stream}

module _ {A : Type 0} (now : ℕ) (name body : String) (offset : ℕ) (ts : Option ℕ)
    (b : Memory A) where
  abbrev put_stream : Memstream → Memory A
  put_stream ms = record b { streams = put name ms b.streams }

  stream_at-put : (ms : Memstream) → stream_at name (put_stream ms) ≡ ms
  unfolding stream_at
  stream_at-put ms = rw (lookup-put, ==_refl name, stream_at) refl

  -- An offset that is not above the last one is refused, and the stream stays as it is.
  pub store_taken :
      leb offset (stream_at name b).offset ≡ true
      → (b' : Memory A) × (store now name body offset ts b
          ≡ (err (in_stream (offset_taken offset)), b'))
        × (stream_at name b' ≡ stream_at name b)
  unfolding store
  store_taken taken = (
    put_stream (stream_at name b),
    rw (insert_taken now body offset ts (stream_at name b) taken, store) refl,
    stream_at-put (stream_at name b),
  )

  -- Any other is taken over.
  pub store_accepted :
      leb offset (stream_at name b).offset ≡ false
      → Fits (stream_at name b)
      → 0 < (stream_at name b).limit
      → let e : Entry = record { timestamp = get_or ts now; offset = offset; body = body } in
        let ms = appended now e (record (stream_at name b) { offset = offset }) in
        (b' : Memory A) × (store now name body offset ts b ≡ (ok offset, b'))
        × (stream_at name b' ≡ ms)
  unfolding store
  store_accepted free f room =
      let e : Entry = record { timestamp = get_or ts now; offset = offset; body = body } in
      let ms = appended now e (record (stream_at name b) { offset = offset }) in
      (
        put_stream ms,
        rw (insert-appended now body offset ts (stream_at name b) f room free, store) refl,
        stream_at-put ms,
      )
