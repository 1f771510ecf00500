-- ===== src/Broker/Memstream/Invariant.antt =====
-- What holds of every stream of broker/memory.go, whoever writes it: the offsets grow, the last
-- offset given is not below them, the lowest one is known and the limit is kept.
use anycable_go.Prelude.{
  Bool-cases, List, Option, String, [], arith, drop, err, inl, inr, leb, length, length-drop, ok,
  refl, suc, zero, ℕ, ◌%◌, ◌++◌, ◌+◌, ◌-◌, ◌<◌, ◌∷◌, ◌≡◌, ◌≤◌, ◌⊎◌,
}
use anycable_go.Broker.Memstream.{
  Entry, Memstream, u64, add, offset_taken, expire, cut_index, insert,
}
use anycable_go.Broker.Memstream.Append.{
  head_offset, keep_last, appended, add-appended, get_or, insert-appended,
}

-- The offsets lie above `lo`, grow strictly, and end at `hi` or below.
abbrev pub Between : ℕ → List Entry → ℕ → Type 0
Between lo [] hi = lo ≤ hi
Between lo (e ∷ es) hi = (lo < e.offset) × Between e.offset es hi

pub record IsStream (ms : Memstream) : Type 0 where
  pub ordered : Between 0 ms.entries ms.offset
  pub low : ms.low ≡ head_offset ms.entries
  pub bounded : length ms.entries ≤ ms.limit

Between-le : (lo hi : ℕ) (es : List Entry) → Between lo es hi → lo ≤ hi
Between-le lo hi [] b = b
Between-le lo hi (e ∷ es) b = omega (arith, Between-le e.offset hi es b.1)

Between-lower : (k lo hi : ℕ) (es : List Entry) → k ≤ lo → Between lo es hi → Between k es hi
Between-lower k lo hi [] h b = omega arith
Between-lower k lo hi (e ∷ es) h b = (omega arith, b.1)

Between-append :
    (lo hi : ℕ) (es : List Entry) (e : Entry)
    → Between lo es hi
    → hi < e.offset
    → Between lo (es ++ e ∷ []) e.offset
Between-append lo hi [] e b h = omega arith
Between-append lo hi (x ∷ es) e b h = (b.0, Between-append x.offset hi es e b.1 h)

Between-drop : (n lo hi : ℕ) (es : List Entry) → Between lo es hi → Between lo (drop n es) hi
Between-drop zero lo hi es b = b
Between-drop (suc n) lo hi [] b = b
Between-drop (suc n) lo hi (e ∷ es) b =
    Between-drop n lo hi es (Between-lower lo e.offset hi es (omega arith) b.1)

length-keep_last : (limit : ℕ) (es : List Entry) → length (keep_last limit es) ≤ limit
length-keep_last limit es = omega (arith, length-drop (length es - limit) es)

-- An appended entry with a new offset keeps the stream well formed.
pub appended-IsStream :
    (now : ℕ) (e : Entry) (ms : Memstream)
    → IsStream ms
    → ms.offset < e.offset
    → IsStream (appended now e (record ms { offset = e.offset }))
unfolding appended
appended-IsStream now e ms v h = record {
  ordered =
      Between-drop (length (ms.entries ++ e ∷ []) - ms.limit) 0 e.offset (ms.entries ++ e ∷ [])
        (Between-append 0 ms.offset ms.entries e v.ordered h);
  low = refl;
  bounded = length-keep_last ms.limit (ms.entries ++ e ∷ []);
}

-- On a well-formed stream with a positive limit, whose counter does not wrap, `add` succeeds: it
-- gives the next offset, the stream holds the last entries up to its limit, the new one at their
-- end, and stays well formed.
pub add-IsStream :
    (now : ℕ) (body : String) (ms : Memstream)
    → IsStream ms
    → 0 < ms.limit
    → ms.offset + 1 < u64
    → (ms' : Memstream) × (add now body ms ≡ ok (ms.offset + 1, ms'))
      × IsStream ms'
      × (ms'.offset ≡ ms.offset + 1)
      × (ms'.entries
          ≡ keep_last ms.limit
              (ms.entries ++ record { timestamp = now; offset = ms.offset + 1; body = body } ∷ []))
add-IsStream now body ms v room small =
    let entry : Entry = record { timestamp = now; offset = ms.offset + 1; body = body } in
    let same : (ms.offset + 1) % u64 ≡ ms.offset + 1 = omega arith in
    (
      appended now entry (record ms { offset = ms.offset + 1 }),
      rw (← same) (add-appended now body ms (record { low = v.low; bounded = v.bounded }) room),
      appended-IsStream now entry ms v (omega arith),
      unfold appended in refl,
      unfold appended in refl,
    )

-- On a well-formed stream with a positive limit, `insert` refuses an offset that is not above the
-- last one given; any other offset is taken over, the new entry, with the given time or else the
-- current one, comes to the end of the last entries up to the limit, and the stream stays well
-- formed.
pub insert-IsStream :
    (now : ℕ) (body : String) (offset : ℕ) (t : Option ℕ) (ms : Memstream)
    → IsStream ms
    → 0 < ms.limit
    → ((offset ≤ ms.offset) × (insert now body offset t ms ≡ err (offset_taken offset)))
      ⊎ ((ms' : Memstream) × (insert now body offset t ms ≡ ok (offset, ms'))
          × IsStream ms'
          × (ms'.offset ≡ offset)
          × (ms'.entries
              ≡ keep_last ms.limit (
                  ms.entries
                  ++ record { timestamp = get_or t now; offset = offset; body = body } ∷ [])))
insert-IsStream now body offset t ms v room = elim (Bool-cases (leb offset ms.offset)) [
  | inl taken ↦ inl (ground arith, unfold insert in rw taken)
  | inr free ↦
      let entry : Entry = record { timestamp = get_or t now; offset = offset; body = body } in
      inr (
        appended now entry (record ms { offset = offset }),
        insert-appended now body offset t ms (record { low = v.low; bounded = v.bounded }) room
            free,
        appended-IsStream now entry ms v (ground arith),
        unfold appended in refl,
        unfold appended in refl,
      )
]

pub head_offset-elim :
    (es : List Entry) → (elim es [ [] ↦ 0 | e ∷ es' ↦ e.offset ]) ≡ head_offset es
head_offset-elim [] = refl
head_offset-elim (e ∷ es) = refl

-- Expiry keeps a stream well formed, and the offset counter as it is.
pub expire-IsStream :
    (now : ℕ) (ms : Memstream)
    → IsStream ms
    → IsStream (expire now ms) × ((expire now ms).offset ≡ ms.offset)
unfolding expire
expire-IsStream now ms v =
    let n = cut_index (now - ms.ttl) ms.entries in
    (
      record {
        ordered = Between-drop n 0 ms.offset ms.entries v.ordered;
        low = head_offset-elim (drop n ms.entries);
        bounded = omega (arith, length-drop n ms.entries, v.bounded);
      },
      refl,
    )
