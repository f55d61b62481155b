-- ===== src/Tests/Handlers.antt =====
-- The message handlers at work.
use agentmsg.Prelude.{◌≡◌, refl, true, some, ◌==◌}
use agentmsg.Model.Scalars.{Uuid}
use agentmsg.Model.Message.{scan_recipients, MessageStatus}
use agentmsg.Model.Acknowledgement.{Acknowledgement, AckStatus, ack_status}
use agentmsg.Services.Table.{update_rows}
use agentmsg.Services.Memory.All.{memory, text}
use agentmsg.Repository.Messages.{scan_found, with_status}
use agentmsg.Repository.Messages
use agentmsg.Repository.Acknowledgements
use agentmsg.Repository.Messages.Found.{IsRead, is_wanted}
use agentmsg.Service.Messages.{
  MessageService, AckDraw, check_ack, message_has_recipient, prepare_ack, record_ack,
  get_by_id_for_tenant, acknowledge_for_tenant,
}
use agentmsg.Service.Messages.Acknowledging.{IsAuthorised, messages_of, acks_of, ack_rows}
use agentmsg.Api.Responses.{Context, serve, parse_uuid, context_uuid}
use agentmsg.Api.Messages.{
  AckRequest, AckReply, requested_ack, service_message_status_for_ack, get_message,
  acknowledge_message,
}
use agentmsg.Api.Messages.Replies.{get_message-IsRead}
use agentmsg.Api.Messages.Acked.{acknowledge_message_written}
use agentmsg.Tests.Fixtures.{hello, one_message}

abbrev service : MessageService
service = record { repo = true; ack_repo = true; redis = true }

-- Agent 9 of tenant 1.
abbrev context : Context
context = record { agent_id = text 9; tenant_id = text 1; trace_id = "" }

get_message-IsRead_example :
    (id tenant : Uuid) × (memory.uuids.parse (text 5) ≡ some id)
    × (memory.uuids.parse (text 1) ≡ some tenant)
    × IsRead (is_wanted tenant id) (memory.messages.rows one_message.messages) hello
unfolding get_message parse_uuid context_uuid serve get_by_id_for_tenant
    Messages.get_by_id_for_tenant scan_found scan_recipients
get_message-IsRead_example = get_message-IsRead service context (text 5) one_message hello refl

abbrev draw : AckDraw
draw = record { now = 2000; fresh_id = 72; fresh_nonce = 3 }

abbrev body : AckRequest
body = record { status = "processed"; details = ""; nonce = "n"; signature = "" }

abbrev reply : AckReply
reply = record {
  ack_status = AckStatus.processed;
  message_status = MessageStatus.processed;
  nonce = "n";
}

acknowledge_message_written_example :
    let w' = (acknowledge_message service draw context (text 5) (some body) one_message).1 in
    (a : Acknowledgement) × (tenant : Uuid) × (memory.uuids.parse (text 5) ≡ some a.message_id)
    × (memory.uuids.parse (text 9) ≡ some a.agent_id)
    × (memory.uuids.parse (text 1) ≡ some tenant)
    × IsAuthorised tenant a (messages_of one_message)
    × (acks_of w' ≡ ack_rows draw a (acks_of one_message))
    × (reply.nonce ≡ (prepare_ack draw a).nonce)
    × (messages_of w'
        ≡ update_rows
            (λ m. m.id == a.message_id)
            (with_status reply.message_status draw.now)
            (messages_of one_message))
unfolding acknowledge_message parse_uuid context_uuid serve ack_status requested_ack
    service_message_status_for_ack acknowledge_for_tenant check_ack Messages.get_by_id_for_tenant
    scan_found scan_recipients message_has_recipient record_ack Acknowledgements.create
    Messages.update_status prepare_ack
acknowledge_message_written_example =
    acknowledge_message_written service draw context (text 5) (some body) one_message reply refl
