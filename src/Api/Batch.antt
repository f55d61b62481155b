-- ===== src/Api/Batch.antt =====
-- The message handlers of internal/api/handler_batch.go.
pub mod Answered
pub mod Settled
use Prim.Native.String.{◌++◌ as str_append}
use agentmsg.Prelude.{
  ℕ, ◌+◌, ℤ, Bool, true, false, ◌&&◌, Option, none, some, String, List, [], ◌∷◌, length, str_eq,
  if◌then◌else◌,
}
use agentmsg.Exec.{Error, Result, ok, err, error_text}
use agentmsg.Model.Scalars.{Uuid, uuid_nil}
use agentmsg.Model.Message.{Message, SendResult}
use agentmsg.Model.Agent.{Agent}
use agentmsg.Services.World.{Services, World}
use agentmsg.Service.Messages.{
  MessageService, SendDraw, check_message, prepare, send, list_by_conversation_for_tenant,
  list_by_tenant,
}
use agentmsg.Service.Agents.{AgentService, query_by_capabilities}
use agentmsg.Api.Responses.{
  Handler, Outcome, Context, respond, refuse, serve, bind_json, parse_uuid, context_uuid, ◌>>=◌,
}
use agentmsg.Api.Messages.{MessageRequest, serialize_content, build_message}

-- What the handling of one message takes from its surroundings: the draws of `Send`, and the
-- identifier of the conversation.
pub record BatchDraw : Type 0 where
  pub sending : SendDraw
  pub conversation : Uuid

abbrev pub failed_with : Uuid → String → SendResult
failed_with id text = record {
  message_id = id;
  status = str_append "error: " text;
  delivered_at = none;
}

-- `msg.ID` after a call of `Send` that failed: the call fills it in once it has accepted the message.
unfoldable pub id_after_send : MessageService → SendDraw → Message → Uuid
id_after_send s d m =
    if s.repo && s.redis
    then elim (check_message (some m)) [ err _ ↦ m.id | ok _ ↦ (prepare d m).id ]
    else m.id

module _ ⦃sv : Services⦄ (s : MessageService) where
  -- The body of the loop.
  unfoldable pub send_one :
      BatchDraw → Uuid → Uuid → String → MessageRequest → World sv → SendResult × World sv
  send_one d sender tenant trace rq w = elim (serialize_content rq.content) [
    | none ↦ (failed_with uuid_nil "content is required", w)
    | some c ↦
        let m : Message = build_message d.conversation sender tenant trace rq c.0 c.1 in
        let (r, w') = send s d.sending (some m) w in
        elim r [
          | ok result ↦ (result, w')
          | err e ↦ (failed_with (id_after_send s d.sending m) (error_text e), w')
        ]
  ]

  -- `n` counts the messages.
  unfoldable pub send_each :
      (ℕ → BatchDraw)
      → ℕ
      → Uuid
      → Uuid
      → String
      → List MessageRequest
      → World sv
      → List SendResult × World sv
  send_each draws n sender tenant trace [] w = ([], w)
  send_each draws n sender tenant trace (rq ∷ rqs) w =
      let (r, w₁) = send_one (draws n) sender tenant trace rq w in
      let (rs, w₂) = send_each draws (n + 1) sender tenant trace rqs w₁ in (r ∷ rs, w₂)

  -- Answers with status 201.
  unfoldable pub send_batch_messages :
      (ℕ → BatchDraw)
      → Context
      → Option (List MessageRequest)
      → Handler (World sv) (List SendResult)
  send_batch_messages draws c body = do
    rqs ← bind_json body
    sender ← context_uuid c.agent_id
    tenant ← context_uuid c.tenant_id
    λ w. let (rs, w') = send_each draws 0 sender tenant c.trace_id rqs w in (Outcome.value rs, w')

-- A missing `limit` is 100 and a missing `offset` 0.
pub record ListMessagesRequest : Type 0 where
  pub conversation_id : String
  pub limit : ℤ
  pub offset : ℤ

module _ ⦃sv : Services⦄ (s : MessageService) where
  abbrev list_page : Uuid → ListMessagesRequest → Handler (World sv) (List Message)
  list_page tenant rq =
      if str_eq rq.conversation_id ""
      then serve "message_not_found" (list_by_tenant s tenant rq.limit rq.offset)
      else (parse_uuid rq.conversation_id >>= λ conversation.
          serve "message_not_found"
            (list_by_conversation_for_tenant s tenant conversation rq.limit))

  -- Answers with status 200, the number of messages, and the limit and offset of the request.
  unfoldable pub list_messages :
      Context → Option ListMessagesRequest → Handler (World sv) (List Message)
  list_messages c query = do
    rq ← bind_json query
    tenant ← context_uuid c.tenant_id
    list_page tenant rq

module _ ⦃sv : Services⦄ (lower : String → String) (s : AgentService) where
  -- Answers with status 200 and the number of agents. Of the body only `capabilities` is used.
  unfoldable pub query_capabilities :
      Context → Option (List String) → Handler (World sv) (List Agent)
  query_capabilities c body = do
    wanted ← bind_json body
    tenant ← context_uuid c.tenant_id
    serve "agent_not_found" (query_by_capabilities s lower tenant wanted)
