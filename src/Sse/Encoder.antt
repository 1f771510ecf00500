-- ===== src/Sse/Encoder.antt =====
-- sse/encoder.go: what is sent to a client of server-sent events.
use anycable_go.Prelude.{
  Bool, List, Option, [], false, if◌then◌else◌, is_empty, ltb, none, not, some, suc, true, zero, ℕ,
  ◌%◌, ◌&&◌, ◌++◌, ◌+◌, ◌/◌, ◌==◌, ◌∷◌, string_eq, nat_eq,
}
use anycable_go.Hub.Index.{bytes}

-- The settings of an encoder.
pub record Encoder : Type 0 where
  pub raw_data : Bool
  pub unwrap_data : Bool

-- A reply: its message as the client reads it when it is unwrapped, which is the text itself or else
-- its JSON, and the position of the message in a stream.
pub record ReplyBody : Type 0 where
  pub message : List ℕ
  pub offset : ℕ
  pub epoch : List ℕ
  pub stream_id : List ℕ

pub data Body : Type 0 where
  reply : ReplyBody → Body
  disconnect : Bool → Body
  another : Body

-- A message with its type and its JSON.
pub record EncodedMessage : Type 0 where
  pub kind : List ℕ
  pub json : List ℕ
  pub body : Body

abbrev pub slash : ℕ
slash = b'/'

abbrev newline : ℕ
newline = b'\n'

-- `fmt.Sprintf("%d", n)`. Twenty digits are enough for 64 bits.
unfoldable pub digits : ℕ → ℕ → List ℕ
digits zero n = []
digits (suc fuel) n =
    let front = digits fuel (n / 10) in
    if ltb n 10 then (48 + n) ∷ [] else front ++ (48 + n % 10) ∷ []

abbrev pub decimal : ℕ → List ℕ
decimal n = digits 20 n

unfoldable pub event_id : ReplyBody → List ℕ
event_id r = decimal r.offset ++ slash ∷ (r.epoch ++ slash ∷ r.stream_id)

abbrev data_of : Encoder → EncodedMessage → List ℕ
data_of e m = elim m.body [
  | reply r ↦ if is_empty m.kind && e.unwrap_data then r.message else m.json
  | _ ↦ m.json
]

-- Only a message of a stream has an ID.
abbrev pub has_position : ReplyBody → Bool
has_position r = ltb 0 r.offset && not (is_empty r.epoch) && not (is_empty r.stream_id)

abbrev id_line : Body → List ℕ
id_line (reply r) = if has_position r then newline ∷ bytes "id: " ++ event_id r else []
id_line (disconnect reconnect) = []
id_line another = []

abbrev retry_no_reconnect : ℕ
retry_no_reconnect = 31536000000

abbrev retry_line : Body → List ℕ
retry_line (reply r) = []
retry_line (disconnect true) = []
retry_line (disconnect false) = newline ∷ bytes "retry: " ++ decimal retry_no_reconnect
retry_line another = []

same_text : List ℕ → List ℕ → Bool
same_text [] [] = true
same_text [] (y ∷ ys) = false
same_text (x ∷ xs) [] = false
same_text (x ∷ xs) (y ∷ ys) = x == y && same_text xs ys

-- `none`: a protocol message, which a client of raw data does not get.
pub encode : Encoder → EncodedMessage → Option (List ℕ)
unfolding event_id same_text bytes
encode e m =
    let payload = bytes "data: " ++ data_of e m in
    let closing = if same_text m.kind (bytes "disconnect") then retry_line m.body else [] in
    if is_empty m.kind
    then some (payload ++ id_line m.body)
    else if e.raw_data
    then none
    else some (bytes "event: " ++ m.kind ++ newline ∷ payload ++ id_line m.body ++ closing)
