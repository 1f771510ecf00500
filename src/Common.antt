-- ===== src/Common.antt =====
-- common/common.go: the messages that the node, the broker and the hub exchange.
pub mod Env
pub mod Commands
pub mod PubSub
use anycable_go.Prelude.{
  Bool, List, Option, String, [], false, if◌then◌else◌, none, some, ℕ, ◌==◌, string_eq, nat_eq,
}

pub record StreamMessageMetadata : Type 0 where
  pub exclude_socket : String
  pub broadcast_type : String
  pub transient : Bool

-- `none` is the nil pointer.
pub record StreamMessage : Type 0 where
  pub stream : String
  pub body : String
  pub meta : Option StreamMessageMetadata
  pub offset : ℕ
  pub epoch : String

pub record RemoteCommandMessage : Type 0 where
  pub command : String
  pub payload : String

-- `msg.Meta != nil && msg.Meta.Transient`.
abbrev pub is_transient : StreamMessage → Bool
is_transient msg = elim msg.meta [ none ↦ false | some m ↦ m.transient ]

abbrev pub presence_join_type : String
presence_join_type = "join"

abbrev pub presence_leave_type : String
presence_leave_type = "leave"

abbrev pub presence_type : String
presence_type = "presence"

abbrev pub presence_info_type : String
presence_info_type = "info"

-- The type of `info` is whatever the client sent: no code reads it.
pub record PresenceEvent (A : Type 0) : Type 0 where
  pub kind : String
  pub info : Option A
  pub id : String

pub record PresenceInfo (A : Type 0) : Type 0 where
  pub kind : String
  pub total : ℕ
  pub records : List (PresenceEvent A)

-- An outgoing message to a client. `M` is the type of decoded JSON.
pub record Reply (M : Type 0) : Type 0 where
  pub kind : String
  pub identifier : String
  pub message : Option M
  pub reason : String
  pub reconnect : Bool
  pub stream_id : String
  pub epoch : String
  pub offset : ℕ
  pub sid : String
  pub restored : Bool
  pub restored_ids : List String

-- The zero value.
abbrev pub empty_reply : (M : Type 0) → Reply M
empty_reply M = record {
  kind = "";
  identifier = "";
  message = none;
  reason = "";
  reconnect = false;
  stream_id = "";
  epoch = "";
  offset = 0;
  sid = "";
  restored = false;
  restored_ids = [];
}

-- JSON decoding: `none` where it fails or the text is `null`; `text` is the text itself as a value.
pub record Json (M : Type 0) : Type 0 where
  pub decode : String → Option M
  pub text : String → M

unfoldable pub to_reply_for : {M : Type 0} → Json M → String → StreamMessage → Reply M
to_reply_for {M} json identifier sm = record (empty_reply M) {
  identifier = identifier;
  message = some (elim (json.decode sm.body) [ none ↦ json.text sm.body | some m ↦ m ]);
  stream_id = if sm.epoch == "" then "" else sm.stream;
  offset = sm.offset;
  epoch = sm.epoch;
}
