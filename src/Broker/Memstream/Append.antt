-- ===== src/Broker/Memstream/Append.antt =====
-- appendEntry of broker/memory.go: what a stream holds after one more entry.
use anycable_go.Prelude.{
  Bool-cases, List, Option, String, [], arith, drop, err, false, if◌then◌else◌, inl, inr, leb,
  length, length-append, ltb, ltb→lt, none, ok, panic, refl, some, suc, true, ℕ, ◌%◌, ◌*◌, ◌++◌,
  ◌+◌, ◌-◌, ◌<◌, ◌∷◌, ◌≡◌, ◌≤◌,
}
use anycable_go.Broker.Memstream.{
  Entry, Memstream, append_entry, add, u64, trim, insert, offset_taken,
}

abbrev pub head_offset : List Entry → ℕ
head_offset [] = 0
head_offset (e ∷ es) = e.offset

-- The last entries of a list, as many as the limit allows.
abbrev pub keep_last : ℕ → List Entry → List Entry
keep_last limit es = drop (length es - limit) es

-- The stream knows its first offset, and holds as many entries as it may.
pub record Fits (ms : Memstream) : Type 0 where
  pub low : ms.low ≡ head_offset ms.entries
  pub bounded : length ms.entries ≤ ms.limit

unfoldable pub appended : ℕ → Entry → Memstream → Memstream
appended now entry ms =
    let kept = keep_last ms.limit (ms.entries ++ entry ∷ []) in
    record ms { entries = kept; low = head_offset kept; deadline = now + ms.ttl * 10 }

abbrev cut : ℕ → List Entry → List Entry
cut limit es = if ltb limit (length es) then drop 1 es else es

cut-keep_last :
    (limit : ℕ) (es : List Entry) → length es ≤ suc limit → cut limit es ≡ keep_last limit es
cut-keep_last limit es h = elim (Bool-cases (ltb limit (length es))) [
  | inl over ↦
      let one : length es - limit ≡ 1 = omega (arith, ltb→lt limit (length es) over) in
      rw (over, one)
  | inr fits ↦ let none_over : length es - limit ≡ 0 = ground arith in rw (fits, none_over)
]

append_entry-cut :
    (now : ℕ) (entry : Entry) (ms : Memstream) (es : List Entry)
    → ms.entries ≡ es
    → ms.low ≡ head_offset es
    → 0 < ms.limit
    → append_entry now entry ms
      ≡ ok (record ms {
        entries = cut ms.limit (es ++ entry ∷ []);
        low = head_offset (cut ms.limit (es ++ entry ∷ []));
        deadline = now + ms.ttl * 10;
      })
unfolding append_entry
append_entry-cut now entry ms [] e l h = ground arith
append_entry-cut now entry ms (x ∷ es) e l h = ground arith

-- With a positive limit an append succeeds, and the stream holds the last entries up to its limit.
pub append_entry-appended :
    (now : ℕ) (entry : Entry) (ms : Memstream)
    → Fits ms
    → 0 < ms.limit
    → append_entry now entry ms ≡ ok (appended now entry ms)
unfolding appended
append_entry-appended now entry ms f h =
    let es = ms.entries ++ entry ∷ [] in
    let room : length es ≤ suc ms.limit =
      omega (arith, f.bounded, length-append ms.entries (entry ∷ [])) in
    rw (← cut-keep_last ms.limit es room) (append_entry-cut now entry ms ms.entries refl f.low h)

pub add-appended :
    (now : ℕ) (body : String) (ms : Memstream)
    → Fits ms
    → 0 < ms.limit
    → let offset = (ms.offset + 1) % u64 in
      let entry : Entry = record { timestamp = now; offset = offset; body = body } in
      add now body ms ≡ ok (offset, appended now entry (record ms { offset = offset }))
unfolding add
add-appended now body ms f h =
    let offset = (ms.offset + 1) % u64 in
    let entry : Entry = record { timestamp = now; offset = offset; body = body } in
    rw
      (append_entry-appended now entry (record ms { offset = offset })
        (record { low = f.low; bounded = f.bounded }) h)
      (unfold appended in refl)

abbrev pub get_or : Option ℕ → ℕ → ℕ
get_or none now = now
get_or (some s) now = s

insert_time : (t : Option ℕ) (now : ℕ) → (elim t [ none ↦ now | some s ↦ s ]) ≡ get_or t now
insert_time none now = refl
insert_time (some s) now = refl

pub insert_taken :
    (now : ℕ) (body : String) (offset : ℕ) (t : Option ℕ) (ms : Memstream)
    → leb offset ms.offset ≡ true
    → insert now body offset t ms ≡ err (offset_taken offset)
unfolding insert
insert_taken now body offset t ms taken = rw taken refl

pub insert-appended :
    (now : ℕ) (body : String) (offset : ℕ) (t : Option ℕ) (ms : Memstream)
    → Fits ms
    → 0 < ms.limit
    → leb offset ms.offset ≡ false
    → let entry : Entry = record { timestamp = get_or t now; offset = offset; body = body } in
      insert now body offset t ms ≡ ok (offset, appended now entry (record ms { offset = offset }))
unfolding insert
insert-appended now body offset t ms f h free =
    let entry : Entry = record { timestamp = get_or t now; offset = offset; body = body } in
    rw
      (
        free,
        insert_time,
        append_entry-appended now entry (record ms { offset = offset })
            (record { low = f.low; bounded = f.bounded }) h,
      )
      (unfold appended in refl)

-- With a limit of 0 the first append reads the first entry of an empty slice.
pub add-no_room :
    (now : ℕ) (body : String) (ms : Memstream) → Fits ms → ms.limit ≡ 0 → add now body ms ≡ panic
unfolding add append_entry trim
add-no_room now body ms f h =
    let empty : ms.entries ≡ [] = ground (arith, f.bounded) in ground (arith, f.low)
