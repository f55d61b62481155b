-- ===== src/Api/Messages.antt =====
-- The message handlers of internal/api/handler.go.
pub mod Acked
pub mod Replies
use agentmsg.Prelude.{
  ℕ, Bool, true, false, Option, none, some, String, List, [], length, if◌then◌else◌,
}
use agentmsg.Exec.{Error}
use agentmsg.Model.Scalars.{Uuid, Bytes, zero_time, uuid_nil}
use agentmsg.Model.Json.{Members}
use agentmsg.Model.Message.{
  Message, MessageMetadata, MessageType, MessageStatus, DeliveryGuarantee, RecipientStr, SendResult,
  TaskContext, is_unset_guarantee,
}
use agentmsg.Model.Acknowledgement.{Acknowledgement, AckStatus, ack_status, is_unset_ack}
use agentmsg.Services.World.{Services, World}
use agentmsg.Service.Messages.{
  MessageService, SendDraw, AckDraw, prepare_ack, send, get_by_id_for_tenant,
  acknowledge_for_tenant,
}
use agentmsg.Api.Responses.{
  Handler, Context, respond, refuse, serve, bind_json, parse_uuid, context_uuid, ◌>>=◌,
}

-- The member `content` of a request: missing or null, a string by its bytes, or any other value by the
-- bytes that `json.Marshal` gives for it.
pub data Content : Type 0 where
  missing : Content
  text : Bytes → Content
  structured : Bytes → Content

pub record MessageRequest : Type 0 where
  pub message_type : MessageType
  pub recipients : List Uuid
  pub content : Content
  pub metadata : Members
  pub delivery_guarantee : DeliveryGuarantee
  pub task_context : Option TaskContext

pub record AckRequest : Type 0 where
  pub status : String
  pub details : String
  pub nonce : String
  pub signature : String

-- The body of the answer to an acknowledgement.
pub record AckReply : Type 0 where
  pub ack_status : AckStatus
  pub message_status : MessageStatus
  pub nonce : String

-- `serializeContent`
unfoldable pub serialize_content : Content → Option (Bytes × String)
serialize_content Content.missing = none
serialize_content (Content.text b) = some (b, "text/plain; charset=utf-8")
serialize_content (Content.structured b) = some (b, "application/json")

-- `buildMessageFromRequest`, after `serializeContent`. `conversation` is the result of `uuid.New()`.
unfoldable pub build_message :
    Uuid → Uuid → Uuid → String → MessageRequest → Bytes → String → Message
build_message conversation sender tenant trace rq content content_type = record {
  id = uuid_nil;
  conversation_id = conversation;
  message_type = rq.message_type;
  sender_id = sender;
  recipient_ids = rq.recipients;
  recipient_str = RecipientStr.blank;
  content = content;
  content_size = length content;
  content_type = content_type;
  metadata = record {
    tags = [];
    correlation_id = "";
    reply_to = none;
    routing_hints = none;
    compression = "";
    encoding = "";
    custom = rq.metadata;
  };
  delivery_guarantee =
      if is_unset_guarantee rq.delivery_guarantee
      then DeliveryGuarantee.at_least_once
      else rq.delivery_guarantee;
  status = MessageStatus.unset;
  task_context = rq.task_context;
  trace_id = trace;
  tenant_id = tenant;
  created_at = zero_time;
  expires_at = none;
  processed_at = none;
}

-- `serviceMessageStatusForAck`
unfoldable pub service_message_status_for_ack : AckStatus → MessageStatus
service_message_status_for_ack AckStatus.received = MessageStatus.delivered
service_message_status_for_ack AckStatus.processed = MessageStatus.processed
service_message_status_for_ack AckStatus.rejected = MessageStatus.failed
service_message_status_for_ack AckStatus.failed = MessageStatus.failed
service_message_status_for_ack AckStatus.unset = MessageStatus.pending
service_message_status_for_ack (AckStatus.other _) = MessageStatus.pending

-- The acknowledgement that the handler passes to the service.
unfoldable pub requested_ack : Uuid → Uuid → AckStatus → AckRequest → Acknowledgement
requested_ack id agent status rq = record {
  id = uuid_nil;
  message_id = id;
  agent_id = agent;
  status = status;
  details = rq.details;
  processed_at = none;
  nonce = rq.nonce;
  signature = rq.signature;
  created_at = zero_time;
}

module _ ⦃sv : Services⦄ (s : MessageService) where
  -- Answers with status 201.
  unfoldable pub send_message :
      SendDraw → Uuid → Context → Option MessageRequest → Handler (World sv) SendResult
  send_message d conversation c body = do
    rq ← bind_json body
    sender ← context_uuid c.agent_id
    tenant ← context_uuid c.tenant_id
    content ← bind_json (serialize_content rq.content)
    serve "message_not_found" (
        send s d
          (some (build_message conversation sender tenant c.trace_id rq content.0 content.1)))

  -- Answers with status 200. `parameter` is the part `id` of the path.
  unfoldable pub get_message : Context → String → Handler (World sv) Message
  get_message c parameter = do
    id ← parse_uuid parameter
    tenant ← context_uuid c.tenant_id
    serve "message_not_found" (get_by_id_for_tenant s tenant id)

  -- `if ackStatus == "" { … }`
  abbrev pub given_status : AckStatus → Handler (World sv) AckStatus
  given_status status = if is_unset_ack status then refuse 400 "invalid_request" else respond status

  -- Answers with status 200. The nonce is the one that the service has filled in.
  unfoldable pub acknowledge_message :
      AckDraw → Context → String → Option AckRequest → Handler (World sv) AckReply
  acknowledge_message d c parameter body = do
    id ← parse_uuid parameter
    rq ← bind_json body
    status ← given_status (ack_status rq.status)
    agent ← context_uuid c.agent_id
    tenant ← context_uuid c.tenant_id
    let a = requested_ack id agent status rq
    _ ← serve "message_not_found" (acknowledge_for_tenant s d tenant (some a))
    respond (record {
      ack_status = status;
      message_status = service_message_status_for_ack status;
      nonce = (prepare_ack d a).nonce;
    })
