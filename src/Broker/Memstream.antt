-- ===== src/Broker/Memstream.antt =====
-- memstream of broker/memory.go: the history of one stream.
-- Times are seconds since 1970, TTLs and limits are not negative: int64 and int do not overflow.
pub mod Append
pub mod Invariant
pub mod History
pub mod Retention
use anycable_go.Prelude.{
  List, Option, Result, String, [], drop, err, if◌then◌else◌, leb, length, ltb, none, ok, panic,
  some, suc, ℕ, ◌%◌, ◌*◌, ◌++◌, ◌+◌, ◌-◌, ◌==◌, ◌>>=◌, ◌^◌, ◌∷◌, string_eq, nat_eq,
}

pub record Entry : Type 0 where
  pub timestamp : ℕ
  pub offset : ℕ
  pub body : String

pub record Memstream : Type 0 where
  pub offset : ℕ
  pub deadline : ℕ
  pub low : ℕ
  pub entries : List Entry
  pub ttl : ℕ
  pub limit : ℕ

pub data StreamError : Type 0 where
  offset_taken : ℕ → StreamError
  too_old : ℕ → ℕ → StreamError
  empty_stream : StreamError
  too_new : ℕ → ℕ → StreamError

abbrev pub u64 : ℕ
u64 = 2 ^ 64

-- `ms.data[0].offset`; the index is out of range in an empty stream.
abbrev pub first_offset : List Entry → Result StreamError ℕ
first_offset [] = panic
first_offset (e ∷ es) = ok e.offset

-- `if len(ms.data) > ms.limit { … }`.
pub trim : Memstream → Result StreamError Memstream
trim ms =
    if ltb ms.limit (length ms.entries)
    then (do
      let rest = drop 1 ms.entries
      low ← first_offset rest
      ok (record ms { entries = rest; low = low }))
    else ok ms

-- `if ms.low == 0 { … }`.
pub set_low : Memstream → Result StreamError Memstream
set_low ms =
    if ms.low == 0 then (do low ← first_offset ms.entries; ok (record ms { low = low })) else ok ms

pub append_entry : ℕ → Entry → Memstream → Result StreamError Memstream
unfolding trim set_low
append_entry now entry ms = do
  trimmed ← trim (record ms { entries = ms.entries ++ entry ∷ [] })
  placed ← set_low trimmed
  ok (record placed { deadline = now + placed.ttl * 10 })

pub add : ℕ → String → Memstream → Result StreamError (ℕ × Memstream)
unfolding append_entry
add now body ms = do
  let offset = (ms.offset + 1) % u64
  let entry : Entry = record { offset = offset; timestamp = now; body = body }
  ms' ← append_entry now entry (record ms { offset = offset })
  ok (ms'.offset, ms')

-- `none` is the zero time, for which the current time is taken.
pub insert : ℕ → String → ℕ → Option ℕ → Memstream → Result StreamError (ℕ × Memstream)
unfolding append_entry
insert now body offset t ms =
    let ts : ℕ = elim t [ none ↦ now | some s ↦ s ] in
    if leb offset ms.offset then err (offset_taken offset) else (do
      let entry : Entry = record { offset = offset; timestamp = ts; body = body }
      ms' ← append_entry now entry (record ms { offset = offset })
      ok (ms'.offset, ms'))

-- The loop that counts the outdated entries at the front, up to the first that is not.
pub cut_index : ℕ → List Entry → ℕ
cut_index deadline [] = 0
cut_index deadline (e ∷ es) =
    let rest = cut_index deadline es in if ltb e.timestamp deadline then suc rest else 0

-- Subtraction stops at 0, where no timestamp is below the difference either.
pub expire : ℕ → Memstream → Memstream
expire now ms =
    let kept = drop (cut_index (now - ms.ttl) ms.entries) ms.entries in
    record ms { entries = kept; low = elim kept [ [] ↦ 0 | e ∷ es ↦ e.offset ] }

-- `ms.data[len(ms.data)-1].offset`.
abbrev pub last_offset : List Entry → Result StreamError ℕ
last_offset [] = panic
last_offset (e ∷ []) = ok e.offset
last_offset (e ∷ f ∷ es) = last_offset (f ∷ es)

-- The entries that the callback is called with, in order.
pub filter_by_offset : ℕ → Memstream → Result StreamError (List Entry)
filter_by_offset offset ms =
    let start = ((offset + u64 - ms.low) % u64 + 1) % u64 in
    if ltb offset ms.low
    then err (too_old offset ms.low)
    else if ms.low == 0
    then err empty_stream
    else if ltb (length ms.entries) start
    then (do last ← last_offset ms.entries; err (too_new offset last))
    else ok (drop start ms.entries)

pub filter_by_time : ℕ → List Entry → List Entry
filter_by_time since [] = []
filter_by_time since (e ∷ es) =
    let rest = filter_by_time since es in if leb since e.timestamp then e ∷ rest else rest
