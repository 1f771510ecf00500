-- ===== src/Sse/Requests.antt =====
-- sse/sse.go: the commands that a request of server-sent events stands for.
pub mod Position
use anycable_go.Prelude.{
  Bool, List, Option, Result, [], err, if◌then◌else◌, is_empty, leb, ltb, none, ok, some, ℕ, ◌&&◌,
  ◌*◌, ◌+◌, ◌-◌, ◌==◌, ◌>>=◌, ◌^◌, ◌∷◌, string_eq, nat_eq,
}
use anycable_go.Sse.Encoder.{slash}

-- `strconv.ParseUint(s, 10, 64)`: every digit, and that the number fits.
unfoldable pub parse_digits : ℕ → List ℕ → Option ℕ
parse_digits acc [] = some acc
parse_digits acc (c ∷ cs) =
    let next = parse_digits (acc * 10 + (c - 48)) cs in
    if leb 48 c && leb c 57 && ltb (acc * 10 + (c - 48)) (2 ^ 64) then next else none

abbrev pub parse_uint : List ℕ → Option ℕ
parse_uint [] = none
parse_uint (c ∷ cs) = parse_digits 0 (c ∷ cs)

-- What stands before the first slash, and what after it.
unfoldable pub cut : List ℕ → Option (List ℕ × List ℕ)
cut [] = none
cut (c ∷ cs) =
    let rest = cut cs in
    if c == slash then some ([], cs) else elim rest [ none ↦ none | some p ↦ some (c ∷ p.0, p.1) ]

pub record HistoryPosition : Type 0 where
  pub stream : List ℕ
  pub offset : ℕ
  pub epoch : List ℕ

pub data RequestError : Type 0 where
  bad_event_id bad_since no_channel bad_command : RequestError

-- `strings.SplitN(lastId, "/", 3)`, when it gives three parts.
abbrev pub split_three : List ℕ → Option (List ℕ × List ℕ × List ℕ)
split_three id = elim (cut id) [
  | none ↦ none
  | some p ↦ elim (cut p.1) [ none ↦ none | some q ↦ some (p.0, q.0, q.1) ]
]

-- The header with the ID of the last event: an ID without three parts is passed over.
pub position_of : List ℕ → Result RequestError (Option HistoryPosition)
position_of id = elim (split_three id) [
  | none ↦ ok none
  | some parts ↦ elim (parse_uint parts.0) [
    | none ↦ err bad_event_id
    | some offset ↦ ok (some (record { stream = parts.2; offset = offset; epoch = parts.1 }))
  ]
]

-- A subscribe command. `since` is zero where it is not given.
pub record Message : Type 0 where
  pub identifier : List ℕ
  pub position : Option HistoryPosition
  pub since : ℕ

-- The parameters of a request, which are empty where they are missing, and the ID of the last event.
pub record Query : Type 0 where
  pub identifier : List ℕ
  pub channel : List ℕ
  pub stream : List ℕ
  pub signed_stream : List ℕ
  pub turbo_stream : List ℕ
  pub last_event_id : List ℕ
  pub history_since : List ℕ

-- Identifiers as JSON, for a channel, a public stream, a signed stream and a Turbo stream, and the
-- reading of a signed number.
pub record Codecs : Type 0 where
  pub channel_json : List ℕ → List ℕ
  pub public_json : List ℕ → List ℕ
  pub signed_json : List ℕ → List ℕ
  pub turbo_json : List ℕ → List ℕ
  pub parse_int : List ℕ → Option ℕ
  pub command_of : List ℕ → Option Message

-- An identifier that is found is kept; otherwise the parameter makes one, if it is given.
abbrev or_from : List ℕ → List ℕ → (List ℕ → List ℕ) → List ℕ
or_from [] [] f = []
or_from [] (c ∷ cs) f = f (c ∷ cs)
or_from (i ∷ is) p f = i ∷ is

pub identifier_of : Codecs → Query → List ℕ
identifier_of c q =
    or_from
      (or_from (or_from (or_from q.identifier q.channel c.channel_json) q.stream c.public_json)
        q.signed_stream c.signed_json)
      q.turbo_stream c.turbo_json

abbrev since_of : Codecs → List ℕ → Result RequestError ℕ
since_of c [] = ok 0
since_of c (d ∷ ds) = elim (c.parse_int (d ∷ ds)) [ none ↦ err bad_since | some n ↦ ok n ]

abbrev position_in : List ℕ → Result RequestError (Option HistoryPosition)
position_in [] = ok none
position_in (d ∷ ds) = position_of (d ∷ ds)

pub subscribe_command_from_get_request : Codecs → Query → Result RequestError (Option Message)
unfolding identifier_of position_of
subscribe_command_from_get_request c q =
    let id = identifier_of c q in
    if is_empty id then ok none else (do
      position ← position_in q.last_event_id
      since ← since_of c q.history_since
      ok (some (record { identifier = id; position = position; since = since })))

-- The lines of a body, and the commands in those that are not empty.
pub subscribe_command_from_post_request :
    Codecs → List (List ℕ) → Result RequestError (List Message)
subscribe_command_from_post_request c [] = ok []
subscribe_command_from_post_request c (line ∷ lines) =
    if is_empty line
    then subscribe_command_from_post_request c lines
    else elim (c.command_of line) [
      | none ↦ err bad_command
      | some m ↦ (do ms ← subscribe_command_from_post_request c lines; ok (m ∷ ms))
    ]

-- A GET request must name a channel.
pub subscribe_commands_from_request :
    Codecs → Bool → Query → List (List ℕ) → Result RequestError (List Message)
unfolding subscribe_command_from_get_request subscribe_command_from_post_request
subscribe_commands_from_request c is_get q lines =
    if is_get
    then (do
      cmd ← subscribe_command_from_get_request c q
      elim cmd [ none ↦ err no_channel | some m ↦ ok (m ∷ []) ])
    else subscribe_command_from_post_request c lines
