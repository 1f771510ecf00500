-- ===== src/Sse/Tests.antt =====
-- Server-sent events at concrete inputs.
use anycable_go.Prelude.{[], arith, ok, refl, some, ◌∷◌, ◌≡◌, string_eq, nat_eq}
use anycable_go.Hub.Index.{bytes}
use anycable_go.Sse.Encoder.{ReplyBody, event_id, slash, digits}
use anycable_go.Sse.Requests.{position_of}
use anycable_go.Sse.Requests.Position.{NoSlash, position_of-event_id}

-- The message 205 of the stream "a/b" in the epoch "xy".
abbrev news : ReplyBody
news = record {
  message = [];
  offset = 205;
  epoch = b'x' ∷ b'y' ∷ [];
  stream_id = b'a' ∷ slash ∷ b'b' ∷ [];
}

plain : NoSlash news.epoch
plain = (refl, (refl, tt))

position_of-event_id_example :
    position_of (event_id news)
    ≡ ok (
        some (record { stream = b'a' ∷ slash ∷ b'b' ∷ []; offset = 205; epoch = b'x' ∷ b'y' ∷ [] }))
position_of-event_id_example = position_of-event_id news (omega arith) plain

news_id : event_id news ≡ bytes "205/xy/a/b"
unfolding bytes event_id digits
news_id = refl
