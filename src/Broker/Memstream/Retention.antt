-- ===== src/Broker/Memstream/Retention.antt =====
-- How a stream of broker/memory.go keeps its history: across `add`, across expiry, and where
-- `insert` leaves gaps.
use anycable_go.Prelude.{
  Bool-cases, List, String, [], ap, arith, drop, err, false, inl, inr, leb, length, length-append,
  length-drop, ltb, ok, refl, sym, true, ℕ, ◌%◌, ◌++◌, ◌+◌, ◌-◌, ◌<◌, ◌==◌, ◌∷◌, ◌≡◌, ◌≤◌,
  string_eq, nat_eq,
}
use anycable_go.Broker.Memstream.Append.{keep_last, appended, add-appended, head_offset}
use anycable_go.Broker.Memstream.Invariant.{IsStream, head_offset-elim}
use anycable_go.Broker.Memstream.History.{IsHistory, Contiguous, Contiguous-drop, Contiguous-append}
use anycable_go.Broker.Memstream.{
  Entry, Memstream, cut_index, expire, filter_by_time, u64, add, filter_by_offset, too_new,
  last_offset,
}

-- Timestamps that do not fall, none below `lo`.
abbrev pub Dated : ℕ → List Entry → Type 0
Dated lo [] = Unit
Dated lo (e ∷ es) = (lo ≤ e.timestamp) × Dated e.timestamp es

Dated-lower : (k lo : ℕ) (es : List Entry) → k ≤ lo → Dated lo es → Dated k es
Dated-lower k lo [] h d = tt
Dated-lower k lo (e ∷ es) h d = (omega arith, d.1)

filter_by_time_all :
    (since lo : ℕ) (es : List Entry) → since ≤ lo → Dated lo es → filter_by_time since es ≡ es
unfolding filter_by_time
filter_by_time_all since lo [] h d = refl
filter_by_time_all since lo (e ∷ es) h d = ground (arith, filter_by_time_all since e.timestamp es)

drop-cut_index :
    (deadline lo : ℕ) (es : List Entry)
    → Dated lo es
    → drop (cut_index deadline es) es ≡ filter_by_time deadline es
unfolding cut_index filter_by_time
drop-cut_index deadline lo [] d = refl
drop-cut_index deadline lo (e ∷ es) d = elim (Bool-cases (ltb e.timestamp deadline)) [
  | inl old ↦
      let late : leb deadline e.timestamp ≡ false = ground arith in
      rw (old, late) (drop-cut_index deadline e.timestamp es d.1)
  | inr fresh ↦
      let late : leb deadline e.timestamp ≡ true = ground arith in
      rw (fresh, late)
        (ap (◌∷◌ e) (sym (filter_by_time_all deadline e.timestamp es (ground arith) d.1)))
]

cut_index-le : (deadline : ℕ) (es : List Entry) → cut_index deadline es ≤ length es
unfolding cut_index
cut_index-le deadline [] = omega arith
cut_index-le deadline (e ∷ es) = ground (arith, cut_index-le deadline es)

-- In a stream whose timestamps do not fall, expiry leaves exactly the entries that are not older
-- than the TTL: those that a reader asking for that time on would get.
pub expire-entries :
    (now lo : ℕ) (ms : Memstream)
    → Dated lo ms.entries
    → (expire now ms).entries ≡ filter_by_time (now - ms.ttl) ms.entries
unfolding expire
expire-entries now lo ms d = drop-cut_index (now - ms.ttl) lo ms.entries d

-- A stream stays a history without gaps when old entries are dropped.
pub expire-IsHistory : (now : ℕ) (ms : Memstream) → IsHistory ms → IsHistory (expire now ms)
expire-IsHistory now ms v =
    let n = cut_index (now - ms.ttl) ms.entries in
    let le = cut_index-le (now - ms.ttl) ms.entries in
    let after = length-drop n ms.entries in
    let shift : n + (ms.offset - length ms.entries) ≡ ms.offset - length (drop n ms.entries) =
      omega (arith, after, le, v.counted) in
    unfold expire in
    record {
      counted = omega (arith, after, v.counted);
      sequence = rw (← shift) (Contiguous-drop n _ ms.entries le v.sequence);
      low = head_offset-elim (drop n ms.entries);
      bounded = omega (arith, after, v.bounded);
      small = v.small;
    }

Contiguous-keep_last :
    (limit k total : ℕ) (es : List Entry)
    → Contiguous k es
    → k + length es ≡ total
    → Contiguous (total - length (keep_last limit es)) (keep_last limit es)
Contiguous-keep_last limit k total es c t =
    let n = length es - limit in
    let shift : n + k ≡ total - length (drop n es) = omega (arith, length-drop n es) in
    rw (← shift) (Contiguous-drop n k es (omega arith) c)

-- `add` on a history without gaps, with a positive limit and a counter that does not wrap, gives
-- the next offset and leaves a history without gaps whose last entry is the new one.
pub add-IsHistory :
    (now : ℕ) (body : String) (ms : Memstream)
    → IsHistory ms
    → 0 < ms.limit
    → ms.offset + 1 < u64
    → (ms' : Memstream) × (add now body ms ≡ ok (ms.offset + 1, ms'))
      × IsHistory ms'
      × (ms'.offset ≡ ms.offset + 1)
      × (ms'.entries
          ≡ keep_last ms.limit
              (ms.entries ++ record { timestamp = now; offset = ms.offset + 1; body = body } ∷ []))
add-IsHistory now body ms v room small =
    let entry : Entry = record { timestamp = now; offset = ms.offset + 1; body = body } in
    let es = ms.entries ++ entry ∷ [] in
    let k = ms.offset - length ms.entries in
    let same : (ms.offset + 1) % u64 ≡ ms.offset + 1 = omega arith in
    let grown = length-append ms.entries (entry ∷ []) in
    let seq = Contiguous-append k ms.entries entry v.sequence (omega (arith, v.counted)) in
    let total : k + length es ≡ ms.offset + 1 = omega (arith, grown, v.counted) in
    let kept = length-drop (length es - ms.limit) es in
    (
      appended now entry (record ms { offset = ms.offset + 1 }),
      rw (← same) (add-appended now body ms (record { low = v.low; bounded = v.bounded }) room),
      unfold appended in
          record {
            counted = omega (arith, kept, grown, v.counted);
            sequence = Contiguous-keep_last ms.limit k (ms.offset + 1) es seq total;
            low = refl;
            bounded = omega (arith, kept);
            small = small;
          },
      unfold appended in refl,
      unfold appended in refl,
    )

last_offset-cons : (e : Entry) (es : List Entry) → (o : ℕ) × (last_offset (e ∷ es) ≡ ok o)
last_offset-cons e [] = (e.offset, refl)
last_offset-cons e (f ∷ es) = last_offset-cons f es

last_offset-total : (es : List Entry) → 0 < head_offset es → (o : ℕ) × (last_offset es ≡ ok o)
last_offset-total [] h = absurd (omega arith)
last_offset-total (e ∷ es) h = last_offset-cons e es

-- A stream with a gap, which `insert` can write: its offsets span more numbers than it has entries.
-- A reader who asks for what follows the last offset given gets an error, and not the empty list.
pub filter_by_offset_gap :
    (ms : Memstream)
    → IsStream ms
    → 0 < ms.low
    → ms.low + length ms.entries ≤ ms.offset
    → ms.offset < u64
    → (o : ℕ) × (filter_by_offset ms.offset ms ≡ err (too_new ms.offset o))
unfolding filter_by_offset
filter_by_offset_gap ms v l gap s =
    let (o, e) = last_offset-total ms.entries (rw v.low at l) in
    let start : ((ms.offset + u64 - ms.low) % u64 + 1) % u64 ≡ ms.offset - ms.low + 1 =
      omega arith in
    let found : ltb ms.offset ms.low ≡ false = ground arith in
    let some_low : (ms.low == 0) ≡ false = ground arith in
    let over : ltb (length ms.entries) (ms.offset - ms.low + 1) ≡ true = ground arith in
    (o, rw (start, found, some_low, over, e))

pub deadline-expire : (now : ℕ) (ms : Memstream) → (expire now ms).deadline ≡ ms.deadline
unfolding expire
deadline-expire now ms = refl

-- A later bound takes nothing from what an earlier one leaves.
pub filter_by_time_twice :
    (early late : ℕ) (es : List Entry)
    → early ≤ late
    → filter_by_time late (filter_by_time early es) ≡ filter_by_time late es
unfolding filter_by_time
filter_by_time_twice early late [] h = refl
filter_by_time_twice early late (e ∷ es) h = ground (arith, filter_by_time_twice early late es h)
