-- ===== src/Broker/Memstream/History.antt =====
-- What the readers of broker/memory.go give back, from a stream that only `add` has written, and
-- from one whose offsets have gaps.
use anycable_go.Prelude.{
  Bool-cases, List, Result, [], ap, arith, drop, err, false, if◌then◌else◌, inl, inr, is_empty,
  length, ltb, ok, refl, suc, true, zero, ℕ, ◌%◌, ◌++◌, ◌+◌, ◌-◌, ◌<◌, ◌==◌, ◌∙◌, ◌∷◌, ◌≡◌, ◌≤◌,
  string_eq, nat_eq,
}
use native.Mathlib.Nat.{zero-add}
use anycable_go.Broker.Memstream.Append.{head_offset}
use anycable_go.Broker.Memstream.{
  Entry, Memstream, last_offset, u64, StreamError, filter_by_offset, empty_stream, too_old, too_new,
}

-- The offsets are the numbers that follow `k`, in order.
abbrev pub Contiguous : ℕ → List Entry → Type 0
Contiguous k [] = Unit
Contiguous k (e ∷ es) = (e.offset ≡ suc k) × Contiguous (suc k) es

-- The entries are the last ones that were added: no offset is missing.
pub record IsHistory (ms : Memstream) : Type 0 where
  pub counted : length ms.entries ≤ ms.offset
  pub sequence : Contiguous (ms.offset - length ms.entries) ms.entries
  pub low : ms.low ≡ head_offset ms.entries
  pub bounded : length ms.entries ≤ ms.limit
  pub small : ms.offset < u64

-- The entries above an offset, in order.
unfoldable pub newer : ℕ → List Entry → List Entry
newer offset [] = []
newer offset (e ∷ es) = if ltb offset e.offset then e ∷ newer offset es else newer offset es

pub Contiguous-append :
    (k : ℕ) (es : List Entry) (e : Entry)
    → Contiguous k es
    → e.offset ≡ k + length es + 1
    → Contiguous k (es ++ e ∷ [])
Contiguous-append k [] e c h = (omega arith, tt)
Contiguous-append k (x ∷ es) e c h = (c.0, Contiguous-append (suc k) es e c.1 (omega arith))

pub Contiguous-drop :
    (n k : ℕ) (es : List Entry) → n ≤ length es → Contiguous k es → Contiguous (n + k) (drop n es)
Contiguous-drop zero k es h c = rw zero-add c
Contiguous-drop (suc n) k [] h c = tt
Contiguous-drop (suc n) k (e ∷ es) h c =
    let swap : suc n + k ≡ n + suc k = omega arith in
    rw swap (Contiguous-drop n (suc k) es (omega arith) c.1)

newer_all : (offset k : ℕ) (es : List Entry) → Contiguous k es → offset ≤ k → newer offset es ≡ es
unfolding newer
newer_all offset k [] c h = refl
newer_all offset k (e ∷ es) c h = ground (arith, newer_all offset (suc k) es c.1)

newer-drop :
    (n k : ℕ) (es : List Entry) → Contiguous k es → n ≤ length es → newer (k + n) es ≡ drop n es
unfolding newer
newer-drop zero k es c h = newer_all (k + 0) k es c (omega arith)
newer-drop (suc n) k [] c h = refl
newer-drop (suc n) k (e ∷ es) c h =
    let swap : suc k + n ≡ k + suc n = omega arith in
    ground (arith, newer-drop n (suc k) es c.1, swap)

-- The range of offsets that can be asked for.
last_offset-Contiguous :
    (k : ℕ) (e : Entry) (es : List Entry)
    → Contiguous k (e ∷ es)
    → last_offset (e ∷ es) ≡ ok (k + length (e ∷ es))
last_offset-Contiguous k e [] c = ap ok (omega arith)
last_offset-Contiguous k e (f ∷ es) c =
    last_offset-Contiguous (suc k) f es c.1 ∙ ap ok (omega arith)

-- What a reader asks for, by cases on the stream and not on positions in it.
abbrev pub after_offset : ℕ → Memstream → List Entry → Result StreamError (List Entry)
after_offset offset ms [] = err empty_stream
after_offset offset ms (e ∷ es) =
    if ltb offset e.offset
    then err (too_old offset e.offset)
    else if ltb ms.offset offset
    then err (too_new offset ms.offset)
    else ok (newer offset (e ∷ es))

start_of :
    (offset low : ℕ)
    → 0 < low
    → low ≤ offset
    → offset < u64
    → ((offset + u64 - low) % u64 + 1) % u64 ≡ offset - low + 1
start_of offset low p h s = omega arith

-- The search by position, in a stream whose first offset is `k + 1`.
filter_by_offset-found :
    (offset k : ℕ) (ms : Memstream) (x : Entry) (es : List Entry)
    → ms.entries ≡ x ∷ es
    → ms.low ≡ suc k
    → Contiguous k (x ∷ es)
    → k + length (x ∷ es) ≡ ms.offset
    → suc k ≤ offset
    → offset < u64
    → filter_by_offset offset ms ≡ (
        if ltb ms.offset offset then err (too_new offset ms.offset) else ok (newer offset (x ∷ es)))
unfolding filter_by_offset
filter_by_offset-found offset k ms x es e l seq total found s =
    let start : ((offset + u64 - suc k) % u64 + 1) % u64 ≡ offset - k = omega arith in
    let here : ltb offset (suc k) ≡ false = ground arith in
    let positive : (suc k == 0) ≡ false = ground arith in
    rw (e, l, here, positive, start)
      (elim (Bool-cases (ltb ms.offset offset)) [
        | inl late ↦
            let over : ltb (length (x ∷ es)) (offset - k) ≡ true = ground arith in
            rw (late, over, last_offset-Contiguous k x es seq, total)
        | inr fine ↦
            let under : ltb (length (x ∷ es)) (offset - k) ≡ false = ground arith in
            let split : k + (offset - k) ≡ offset = omega arith in
            rw (fine, under, ← newer-drop (offset - k) k (x ∷ es) seq (ground arith), split)
      ])

filter_by_offset-entries :
    (offset : ℕ) (ms : Memstream) (es : List Entry)
    → IsHistory ms
    → ms.entries ≡ es
    → offset < u64
    → filter_by_offset offset ms ≡ after_offset offset ms es
filter_by_offset-entries offset ms [] v e s = unfold filter_by_offset in ground (arith, v.low)
filter_by_offset-entries offset ms (x ∷ es) v e s =
    let k = ms.offset - length (x ∷ es) in
    let seq : Contiguous k (x ∷ es) = rw e at v.sequence in
    let counted : length (x ∷ es) ≤ ms.offset = rw e at v.counted in
    let low : ms.low ≡ x.offset = rw e at v.low in
    elim (Bool-cases (ltb offset x.offset)) [
      | inl old ↦ unfold filter_by_offset in rw (low, old)
      | inr found ↦ rw found (
          filter_by_offset-found offset k ms x es e (low ∙ seq.0) seq (omega arith)
            (ground (arith, seq.0)) s)
    ]

-- In a stream that only `add` has written, the reader gives exactly the entries above the offset,
-- in order, where the offset is between the lowest one stored and the last one given; a lower
-- offset, a higher one and an empty stream are each an error of their own.
pub filter_by_offset-IsHistory :
    (offset : ℕ) (ms : Memstream)
    → IsHistory ms
    → offset < u64
    → filter_by_offset offset ms ≡ after_offset offset ms ms.entries
filter_by_offset-IsHistory offset ms v s = filter_by_offset-entries offset ms ms.entries v refl s

after_offset_in_range :
    (offset : ℕ) (ms : Memstream) (es : List Entry)
    → is_empty es ≡ false
    → head_offset es ≤ offset
    → offset ≤ ms.offset
    → after_offset offset ms es ≡ ok (newer offset es)
after_offset_in_range offset ms [] h low high = cc
after_offset_in_range offset ms (e ∷ es) h low high = ground arith

pub newer-append :
    (offset : ℕ) (es : List Entry) (e : Entry)
    → offset < e.offset
    → newer offset (es ++ e ∷ []) ≡ newer offset es ++ e ∷ []
unfolding newer
newer-append offset [] e h = ground arith
newer-append offset (x ∷ es) e h = ground (arith, newer-append offset es e h)

-- Inside the range of stored offsets a reader gets the entries above the one it asks for.
pub filter_by_offset_in_range :
    (offset : ℕ) (ms : Memstream)
    → IsHistory ms
    → is_empty ms.entries ≡ false
    → ms.low ≤ offset
    → offset ≤ ms.offset
    → filter_by_offset offset ms ≡ ok (newer offset ms.entries)
filter_by_offset_in_range offset ms v some_entry low high =
    filter_by_offset-IsHistory offset ms v (omega (arith, v.small))
    ∙ after_offset_in_range offset ms ms.entries some_entry (rw (← v.low) low) high
