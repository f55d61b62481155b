-- ===== src/Model/Message.antt =====
-- internal/model/message.go: `Message` and what it holds. A named string type is a data type with
-- a constructor for each constant, `unset` for the empty string, and `other` for any other text.
use agentmsg.Prelude.{ℕ, Bool, true, false, String, Option, List, []}
use agentmsg.Exec.{Error, Result, ok, err}
use agentmsg.Model.Scalars.{Uuid, Time, Bytes, Float64}
use agentmsg.Model.Json.{Members}

pub data MessageType : Type 0 where
  unset task_request task_response task_status_update task_delegate : MessageType
  capability_query capability_advert error_report heartbeat generic : MessageType
  other : String → MessageType

pub data DeliveryGuarantee : Type 0 where
  unset at_most_once at_least_once exactly_once : DeliveryGuarantee
  other : String → DeliveryGuarantee

pub data MessageStatus : Type 0 where
  unset pending sent delivered processed failed dead_letter : MessageStatus
  other : String → MessageStatus

pub record RoutingHints : Type 0 where
  pub preferred_agents : List String
  pub excluded_agents : List String
  pub max_hops : ℕ
  pub price_limit : Float64

pub record MessageMetadata : Type 0 where
  pub tags : List (String × String)
  pub correlation_id : String
  pub reply_to : Option Uuid
  pub routing_hints : Option RoutingHints
  pub compression : String
  pub encoding : String
  pub custom : Members

pub record RetryPolicy : Type 0 where
  pub max_attempts : ℕ
  pub initial_delay_ms : ℕ
  pub max_delay_ms : ℕ
  pub backoff_multiplier : Float64

pub record TaskContext : Type 0 where
  pub task_id : Uuid
  pub parent_task_id : Option Uuid
  pub root_task_id : Option Uuid
  pub priority : ℕ
  pub deadline : Option Time
  pub dependencies : List Uuid
  pub blocking : Bool
  pub retry_policy : Option RetryPolicy
  pub retry_count : ℕ

-- The text of the `recipient_ids` column: the empty string, a text that `json.Unmarshal` decodes to a
-- list of identifiers, as `json.Marshal` makes it (`"[]"` for none), or one that it does not decode.
pub data RecipientStr : Type 0 where
  blank : RecipientStr
  encoded : List Uuid → RecipientStr
  malformed : String → RecipientStr

pub record Message : Type 0 where
  pub id : Uuid
  pub conversation_id : Uuid
  pub message_type : MessageType
  pub sender_id : Uuid
  pub recipient_ids : List Uuid
  pub recipient_str : RecipientStr
  pub content : Bytes
  pub content_size : ℕ
  pub content_type : String
  pub metadata : MessageMetadata
  pub delivery_guarantee : DeliveryGuarantee
  pub status : MessageStatus
  pub task_context : Option TaskContext
  pub trace_id : String
  pub tenant_id : Uuid
  pub created_at : Time
  pub expires_at : Option Time
  pub processed_at : Option Time

pub record SendResult : Type 0 where
  pub message_id : Uuid
  pub status : String
  pub delivered_at : Option ℕ

abbrev pub is_unset_status : MessageStatus → Bool
is_unset_status MessageStatus.unset = true
is_unset_status _ = false

abbrev pub is_unset_guarantee : DeliveryGuarantee → Bool
is_unset_guarantee DeliveryGuarantee.unset = true
is_unset_guarantee _ = false

-- `m.SetRecipients()`: a list of identifiers always encodes, and no recipients are written `"[]"`.
unfoldable pub set_recipients : Message → Message
set_recipients m = record m { recipient_str = RecipientStr.encoded m.recipient_ids }

-- The error of `json.Unmarshal`.
abbrev pub decode_error : Error
decode_error = Error.external "json"

abbrev recipients_from : RecipientStr → Message → Result Message
recipients_from RecipientStr.blank m = ok (record m { recipient_ids = [] })
recipients_from (RecipientStr.encoded ids) m = ok (record m { recipient_ids = ids })
recipients_from (RecipientStr.malformed _) m = err decode_error

-- `m.ScanRecipients()`
unfoldable pub scan_recipients : Message → Result Message
scan_recipients m = recipients_from m.recipient_str m

-- What reading the JSON text of a message gives back: `RecipientStr` is left out of the text
-- (`json:"-"`), every other field is in it.
unfoldable pub through_json : Message → Message
through_json m = record m { recipient_str = RecipientStr.blank }
