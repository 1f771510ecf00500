-- ===== src/Node/Link/Tests.antt =====
-- A session with 256 frames in its channel, and one that is authenticated and told to disconnect.
use anycable_go.Prelude.{List, [], arith, false, length, refl, suc, true, zero, ℕ, ◌+◌, ◌∷◌, ◌≡◌}
use anycable_go.Node.Link.{Frame, new_link, send_frame, disconnect, text}
use anycable_go.Node.Link.Threads.{Machine, start, here}
use anycable_go.Node.Link.Threads.Abandoned.{IsFull, NoClose, send_frame-abandons}

frames : ℕ → List Frame
frames zero = []
frames (suc n) = text "hello" ∷ frames n

length-frames : (n : ℕ) → length (frames n) ≡ n
unfolding frames
length-frames zero = refl
length-frames (suc n) = omega (arith, length-frames n)

frames-NoClose : (n : ℕ) → NoClose (frames n)
unfolding frames
frames-NoClose zero = tt
frames-NoClose (suc n) = (refl, frames-NoClose n)

abbrev slow : Machine
slow = record {
  link = record (new_link true true) { connected = true; waiting = frames 256 };
  connects = 1;
  checked = 0;
  detaching = 0;
}

slow-IsFull : IsFull slow
slow-IsFull = record {
  unchecked = refl;
  connected = refl;
  attached = refl;
  full = length-frames 256;
  no_close = frames-NoClose 256;
  still_open = refl;
}

abbrev dropped : Machine
dropped = record slow { link = send_frame (text "one more") slow.link }

send_frame-abandons_example :
    ((send_frame (text "one more") slow.link).connected ≡ false)
    × ((send_frame (text "one more") slow.link).departures ≡ slow.link.departures + 1)
    × ((send_frame (text "one more") slow.link).waiting ≡ slow.link.waiting)
    × (dropped.link.hung_up ≡ false)
send_frame-abandons_example =
    send_frame-abandons (text "one more") slow slow-IsFull dropped here refl

abbrev joined : Machine
joined = record (start (new_link true false)) {
  link = record (new_link true false) { connected = true };
  connects = 1;
}

abbrev ended : Machine
ended = record joined { link = disconnect "bye" 1000 joined.link }
