-- ===== src/Common/Commands.antt =====
-- The commands of a client, and the results of a controller, in common/common.go.
use anycable_go.Common.{StreamMessage, PresenceEvent}
use anycable_go.Prelude.{Bool, List, Option, String, false, true, ℕ}
use anycable_go.Prelude.Dict.{Dict}

-- `int` where a negative number matters.
pub data ℤ : Type 0 where
  pos : ℕ → ℤ
  negsuc : ℕ → ℤ

abbrev pub is_non_negative : ℤ → Bool
is_non_negative (pos n) = true
is_non_negative (negsuc n) = false

abbrev pub success : ℕ
success = 0

abbrev pub failure : ℕ
failure = 1

abbrev pub error : ℕ
error = 2

-- Where nil differs from an empty slice or map, `none` is nil.
pub record CommandResult : Type 0 where
  pub stop_all_streams : Bool
  pub disconnect : Bool
  pub streams : Option (List String)
  pub stopped_streams : Option (List String)
  pub transmissions : List String
  pub broadcasts : List StreamMessage
  pub cstate : Option (Dict String String)
  pub istate : Option (Dict String String)
  pub disconnect_interest : ℤ
  pub status : ℕ

-- CallResult, without the channel state that no reader of it uses.
pub record CallResult : Type 0 where
  pub transmissions : List String
  pub broadcasts : List StreamMessage
  pub cstate : Option (Dict String String)

abbrev pub to_call_result : CommandResult → CallResult
to_call_result c = record {
  transmissions = c.transmissions;
  broadcasts = c.broadcasts;
  cstate = c.cstate;
}

-- What a controller answers to a connection, without the channel state that nothing reads.
pub record ConnectResult : Type 0 where
  pub identifier : String
  pub transmissions : List String
  pub broadcasts : List StreamMessage
  pub cstate : Option (Dict String String)
  pub disconnect_interest : ℤ
  pub status : ℕ

abbrev pub connect_call_result : ConnectResult → CallResult
connect_call_result c = record {
  transmissions = c.transmissions;
  broadcasts = c.broadcasts;
  cstate = c.cstate;
}

pub record HistoryPosition : Type 0 where
  pub epoch : String
  pub offset : ℕ

-- A `since` of 0 is none.
pub record HistoryRequest : Type 0 where
  pub since : ℕ
  pub streams : Option (Dict String HistoryPosition)

-- What `Data interface{}` holds: a text, something else, or nothing. `A` is the type of presence
-- information and of other data.
pub data Data (A : Type 0) : Type 0 where
  text : String → Data A
  other : A → Data A
  no_data : Data A

pub record Message (A : Type 0) : Type 0 where
  pub command : String
  pub identifier : String
  pub body : Data A
  pub history : HistoryRequest
  pub presence : Option (PresenceEvent A)
