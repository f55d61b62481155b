-- ===== src/Sdk/Messages.antt =====
-- sdk/go/agentmsg/message.go: the client's messages, and the JSON that `json.Marshal` makes of them.
-- The other types of the client have the fields of the server's.
use agentmsg.Prelude.{ℕ, Option, none, some, String, List, [], ◌∷◌, ◌++◌, map}
use agentmsg.Model.Scalars.{Uuid, Time, Bytes}
use agentmsg.Model.Json.{Json, Items, empty, item, members}
use agentmsg.Model.Message.{
  MessageMetadata, MessageStatus, MessageType, DeliveryGuarantee, TaskContext,
}
use agentmsg.Model.Agent.{Agent, Capability}
use agentmsg.Model.Subscription.{Subscription}

pub record ClientMessage : Type 0 where
  pub id : Uuid
  pub conversation_id : Uuid
  pub message_type : MessageType
  pub sender_id : Uuid
  pub recipient_ids : List Uuid
  pub content : Bytes
  pub content_size : ℕ
  pub content_type : String
  pub metadata : MessageMetadata
  pub delivery_guarantee : DeliveryGuarantee
  pub status : MessageStatus
  pub task_context : Option TaskContext
  pub trace_id : String
  pub tenant_id : Uuid
  pub created_at : Time
  pub expires_at : Option Time
  pub processed_at : Option Time

-- The values that `json.Marshal` makes, of types whose names do not matter here.
pub record Encoder : Type 0 where
  pub uuid : Uuid → String
  pub time : Time → String
  pub base64 : Bytes → String
  pub number : ℕ → Json
  pub message_type : MessageType → String
  pub delivery_guarantee : DeliveryGuarantee → String
  pub message_status : MessageStatus → String
  pub metadata : MessageMetadata → Json
  pub task_context : TaskContext → Json
  pub agent : Agent → Json
  pub capabilities : List Capability → Json
  pub subscription : Subscription → Json

abbrev pub items : List Json → Items
items [] = empty
items (x ∷ xs) = item x (items xs)

-- A field with `omitempty` that holds a pointer.
abbrev omit_empty : {A : Type 0} → String → (A → Json) → Option A → List (String × Json)
omit_empty name f none = []
omit_empty name f (some a) = (name, f a) ∷ []

-- A nil slice of recipients, which is `null`, is not told from an empty one.
unfoldable pub message_fields : Encoder → ClientMessage → List (String × Json)
message_fields e m =
    ("id", Json.text (e.uuid m.id))
    ∷ ("conversationId", Json.text (e.uuid m.conversation_id))
    ∷ ("messageType", Json.text (e.message_type m.message_type))
    ∷ ("senderId", Json.text (e.uuid m.sender_id))
    ∷ ("recipientIds", Json.array (items (map (λ id. Json.text (e.uuid id)) m.recipient_ids)))
    ∷ ("content", Json.text (e.base64 m.content))
    ∷ ("contentSize", e.number m.content_size)
    ∷ ("contentType", Json.text m.content_type)
    ∷ ("metadata", e.metadata m.metadata)
    ∷ ("deliveryGuarantee", Json.text (e.delivery_guarantee m.delivery_guarantee))
    ∷ ("status", Json.text (e.message_status m.status))
    ∷ (omit_empty "taskContext" e.task_context m.task_context
        ++ ("traceId", Json.text m.trace_id)
          ∷ ("tenantId", Json.text (e.uuid m.tenant_id))
          ∷ ("createdAt", Json.text (e.time m.created_at))
          ∷ (omit_empty "expiresAt" (λ t. Json.text (e.time t)) m.expires_at
              ++ omit_empty "processedAt" (λ t. Json.text (e.time t)) m.processed_at))

unfoldable pub message_json : Encoder → ClientMessage → Json
message_json e m = Json.object (members (message_fields e m))
