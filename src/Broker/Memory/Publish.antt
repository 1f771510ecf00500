-- ===== src/Broker/Memory/Publish.antt =====
-- HandleBroadcast, HistoryFrom and HistorySince of broker/memory.go: what is published can be read.
use anycable_go.Prelude.{
  ==_refl, List, String, [], ap, arith, false, is_empty, is_empty-append, length, length-append,
  map, none, ok, refl, some, ℕ, ◌++◌, ◌+◌, ◌-◌, ◌<◌, ◌==◌, ◌∙◌, ◌∷◌, ◌≡◌, ◌≤◌, string_eq, nat_eq,
}
use anycable_go.Prelude.Dict.{lookup, lookup-put, put}
use anycable_go.Broker.Memstream.Retention.{add-IsHistory}
use anycable_go.Broker.Memstream.Append.{keep_last, head_offset}
use anycable_go.Broker.Memstream.History.{IsHistory, newer, filter_by_offset_in_range, newer-append}
use mathlib.Core.List.{map-append}
use anycable_go.Broker.Calls
use anycable_go.Broker.Memstream
use anycable_go.Broker.Memstream.{Entry, u64}
use anycable_go.Broker.Memory.{
  Memory, stream_at, StreamMessage, history_from, is_transient, Memstream, to_message,
  handle_broadcast,
}

-- What is published is what the history keeps: the same stream, text, offset and epoch.
abbrev pub stamped : StreamMessage → String → ℕ → StreamMessage
stamped msg epoch offset = record msg { epoch = epoch; offset = offset }

module _ {A : Type 0} (now : ℕ) (msg : StreamMessage) (b : Memory A)
    (kept : is_transient msg ≡ false) (ms : Memstream) (at : lookup msg.stream b.streams ≡ some ms)
    (v : IsHistory ms) (room : length ms.entries < ms.limit) (small : ms.offset + 1 < u64) where
  abbrev entry : Entry
  entry = record { timestamp = now; offset = ms.offset + 1; body = msg.body }

  keep_last_room : keep_last ms.limit (ms.entries ++ entry ∷ []) ≡ ms.entries ++ entry ∷ []
  keep_last_room =
      let fits : length (ms.entries ++ entry ∷ []) - ms.limit ≡ 0 =
        omega (arith, length-append ms.entries (entry ∷ [])) in
      rw fits

  stream_at-known : stream_at msg.stream b ≡ ms
  unfolding stream_at
  stream_at-known = rw (at, stream_at)

  published :
      {ms' : Memstream}
      → Memstream.add now msg.body ms ≡ ok (ms.offset + 1, ms')
      → handle_broadcast now msg b
        ≡ ok (
          Calls.broadcast (stamped msg b.epoch (ms.offset + 1)) ∷ [],
          record b { streams = put msg.stream ms' b.streams },
        )
  unfolding handle_broadcast
  published added = ground (arith, stream_at-known)

  handle_broadcast-kept :
      (ms' : Memstream) × (handle_broadcast now msg b
        ≡ ok (
          Calls.broadcast (stamped msg b.epoch (ms.offset + 1)) ∷ [],
          record b { streams = put msg.stream ms' b.streams },
        ))
      × IsHistory ms'
      × (ms'.offset ≡ ms.offset + 1)
      × (ms'.entries ≡ ms.entries ++ entry ∷ [])
  handle_broadcast-kept =
      let (ms', added, v', offset, entries) = add-IsHistory now msg.body ms v (omega arith) small in
      (ms', published added, v', offset, entries ∙ keep_last_room)

map-append-one :
    {B C : Type 0} (f : B → C) (xs : List B) (x : B) → map f (xs ++ x ∷ []) ≡ map f xs ++ f x ∷ []
map-append-one f xs x = map-append f xs (x ∷ [])

history_from-in_range :
    {A : Type 0} (name : String) (offset : ℕ) (b : Memory A) (ms : Memstream)
    → lookup name b.streams ≡ some ms
    → IsHistory ms
    → is_empty ms.entries ≡ false
    → ms.low ≤ offset
    → offset ≤ ms.offset
    → history_from name b.epoch offset b
      ≡ ok (map (to_message name b.epoch) (newer offset ms.entries))
unfolding history_from
history_from-in_range name offset b ms at v some_entry low high =
    rw (==_refl b.epoch, at, filter_by_offset_in_range offset ms v some_entry low high)

head_offset-append :
    (es : List Entry) (e : Entry)
    → is_empty es ≡ false
    → head_offset (es ++ e ∷ []) ≡ head_offset es
head_offset-append [] e h = cc
head_offset-append (x ∷ es) e h = refl

history_from-put :
    {A : Type 0} (name other epoch : String) (offset : ℕ) (b : Memory A) (ms : Memstream)
    → (name == other) ≡ false
    → history_from other epoch offset (record b { streams = put name ms b.streams })
      ≡ history_from other epoch offset b
unfolding history_from
history_from-put name other epoch offset b ms apart = rw (lookup-put, apart) refl

module _ {A : Type 0} (now : ℕ) (msg : StreamMessage) (b : Memory A) (ms : Memstream)
    (offset : ℕ) where
  -- The message as the history gives it back: without its metadata.
  abbrev pub recalled : StreamMessage
  recalled = record (stamped msg b.epoch (ms.offset + 1)) { meta = none }

  -- A message that is not transient, published to a stream with a history without gaps, at least
  -- one entry, room for one more and a next offset that fits in 64 bits, is broadcast with the
  -- broker's epoch and the next offset. From then on every reader whose position is in the range of
  -- the history reads what it would have read before and then this message, and the histories of
  -- other streams stay as they were.
  pub handle_broadcast-history_from :
      is_transient msg ≡ false
      → lookup msg.stream b.streams ≡ some ms
      → IsHistory ms
      → is_empty ms.entries ≡ false
      → length ms.entries < ms.limit
      → ms.offset + 1 < u64
      → ms.low ≤ offset
      → offset ≤ ms.offset
      → (b' : Memory A) × (old : List StreamMessage) × (handle_broadcast now msg b
          ≡ ok (Calls.broadcast (stamped msg b.epoch (ms.offset + 1)) ∷ [], b'))
        × (history_from msg.stream b.epoch offset b ≡ ok old)
        × (history_from msg.stream b'.epoch offset b' ≡ ok (old ++ recalled ∷ []))
        × ((other epoch : String) (o : ℕ)
            → (msg.stream == other) ≡ false
            → history_from other epoch o b' ≡ history_from other epoch o b)
  handle_broadcast-history_from kept at v some_entry room small low high =
      let (ms', sent, v', next, entries) =
        handle_broadcast-kept now msg b kept ms at v room small in
      let e : Entry = record { timestamp = now; offset = ms.offset + 1; body = msg.body } in
      (
        record b { streams = put msg.stream ms' b.streams },
        map (to_message msg.stream b.epoch) (newer offset ms.entries),
        sent,
        history_from-in_range msg.stream offset b ms at v some_entry low high,
        history_from-in_range msg.stream offset
              (record b { streams = put msg.stream ms' b.streams }) ms'
              (rw (lookup-put, ==_refl msg.stream)) v' (rw entries (is_empty-append ms.entries e))
              (rw (v'.low, entries, head_offset-append ms.entries e some_entry, ← v.low) low)
              (omega arith)
            ∙ ap ok (
                rw (entries, newer-append offset ms.entries e (omega arith))
                  (map-append-one (to_message msg.stream b.epoch) (newer offset ms.entries) e
                    ∙ unfold to_message in refl)),
        λ other epoch o apart. history_from-put msg.stream other epoch o b ms' apart,
      )
