-- ===== src/Hub/Streams.antt =====
-- The stream list of a session in hub/hub.go: AddStream, RemoveStream, and the loop of
-- UnsubscribeSessionFromChannel, which ranges over the slice that it removes from.
use anycable_go.Prelude.{
  Bool, List, Option, String, [], false, if◌then◌else◌, none, some, suc, zero, ℕ, ◌&&◌, ◌++◌, ◌==◌,
  ◌||◌, ◌∷◌, string_eq, nat_eq,
}

abbrev pub StreamPair : Type 0
StreamPair = String × String

-- RemoveStream: the first pair that fits goes.
unfoldable pub remove_stream : String → String → List StreamPair → List StreamPair
remove_stream stream identifier [] = []
remove_stream stream identifier ((s, i) ∷ ps) =
    if s == stream && i == identifier then ps else (s, i) ∷ remove_stream stream identifier ps

-- A slice while a loop ranges over it: the elements it has now, and what its array holds behind
-- them. The loop goes on reading the array that it began with.
pub record Slice : Type 0 where
  pub live : List StreamPair
  pub stale : List StreamPair

abbrev pub get_elem? {ℓ} : {A : Type ℓ} → List A → ℕ → Option A
get_elem? [] i = none
get_elem? (x ∷ xs) zero = some x
get_elem? (x ∷ xs) (suc i) = get_elem? xs i

abbrev pub has_stream : String → String → List StreamPair → Bool
has_stream stream identifier [] = false
has_stream stream identifier ((s, i) ∷ ps) =
    (s == stream && i == identifier) || has_stream stream identifier ps

abbrev pub last_of : StreamPair → List StreamPair → StreamPair
last_of p [] = p
last_of p (q ∷ qs) = last_of q qs

-- `append(hs.streams[:i], hs.streams[i+1:]...)` moves what follows down by one place in the same
-- array, so that its last element stands there twice.
unfoldable pub remove_in_place : String → String → Slice → Slice
unfolding remove_stream
remove_in_place stream identifier sl =
    if has_stream stream identifier sl.live
    then record {
      live = remove_stream stream identifier sl.live;
      stale = last_of (stream, identifier) sl.live ∷ sl.stale;
    }
    else sl

-- The loop from position `i` on, with `rounds` elements of the first slice to go: the pairs whose
-- subscription is dropped, and the slice afterwards.
unfoldable pub unsubscribe_loop : String → ℕ → ℕ → Slice → List StreamPair × Slice
unfolding remove_in_place
unsubscribe_loop target i zero sl = ([], sl)
unsubscribe_loop target i (suc rounds) sl = elim (get_elem? (sl.live ++ sl.stale) i) [
  | none ↦ ([], sl)
  | some (stream, identifier) ↦
      let hit = unsubscribe_loop target (suc i) rounds (remove_in_place stream identifier sl) in
      let miss = unsubscribe_loop target (suc i) rounds sl in
      if target == identifier then ((stream, identifier) ∷ hit.0, hit.1) else miss
]
