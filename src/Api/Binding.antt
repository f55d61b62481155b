-- ===== src/Api/Binding.antt =====
-- What `ShouldBindJSON` makes of the body of `POST /api/v1/messages` (`MessageRequest` of
-- internal/api/handler.go), and the HTTP answer that a handler's outcome becomes.
use agentmsg.Prelude.{ℕ, Option, none, some, String, List, []}
use agentmsg.Model.Scalars.{Uuid}
use agentmsg.Model.Json.{Json, Members, end, member, find_member}
use agentmsg.Model.Message.{MessageType, DeliveryGuarantee, TaskContext}
use agentmsg.Api.Responses.{Outcome}
use agentmsg.Api.Messages.{Content, MessageRequest}

-- How the fields' values are decoded; none where a value does not fit.
pub record FieldDecoder : Type 0 where
  pub message_type : Json → Option MessageType
  pub recipients : Json → Option (List Uuid)
  pub content : Json → Content
  pub metadata : Json → Option Members
  pub delivery_guarantee : Json → Option DeliveryGuarantee
  pub task_context : Json → Option (Option TaskContext)

abbrev decode_field : {A : Type 0} → (Json → Option A) → A → Option Json → Option A
decode_field f zero none = some zero
decode_field f zero (some j) = f j

abbrev content_field : (Json → Content) → Option Json → Content
content_field f none = Content.missing
content_field f (some j) = f j

infixl 5 ◌>>=◌
abbrev ◌>>=◌ : {A B : Type 0} → Option A → (A → Option B) → Option B
none >>= f = none
some a >>= f = f a

unfoldable pub bind_members : FieldDecoder → Members → Option MessageRequest
bind_members d ms = do
  message_type ← decode_field d.message_type MessageType.unset (find_member "messageType" ms)
  recipients ← decode_field d.recipients [] (find_member "recipients" ms)
  metadata ← decode_field d.metadata end (find_member "metadata" ms)
  guarantee ←
      decode_field d.delivery_guarantee DeliveryGuarantee.unset (find_member "deliveryGuarantee" ms)
  task_context ← decode_field d.task_context none (find_member "taskContext" ms)
  some (record {
    message_type = message_type;
    recipients = recipients;
    content = content_field d.content (find_member "content" ms);
    metadata = metadata;
    delivery_guarantee = guarantee;
    task_context = task_context;
  })

unfoldable pub bind_message_request : FieldDecoder → Json → Option MessageRequest
bind_message_request d (Json.object ms) = bind_members d ms
bind_message_request d Json.null = bind_members d end
bind_message_request d _ = none

-- `respondError`, without the identifiers of the request and the trace.
abbrev pub error_json : String → String → Json
error_json code message = Json.object (
    member "error"
      (Json.object (member "code" (Json.text code) (member "message" (Json.text message) end))) end)

-- The status and the body of an answer. `message` is the text that goes with a status and a code.
unfoldable pub answer : {A : Type 0} → ℕ → (A → Json) → (ℕ → String → String) → Outcome A → ℕ × Json
answer status encode message (Outcome.value a) = (status, encode a)
answer status encode message (Outcome.refused s code) = (s, error_json code (message s code))
