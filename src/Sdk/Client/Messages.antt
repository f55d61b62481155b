-- ===== src/Sdk/Client/Messages.antt =====
-- The methods of `Client` on messages.
use Prim.Native.String.{◌++◌ as str_append}
use agentmsg.Prelude.{Option, none, some, String, List, map, ◌==◌, if◌then◌else◌}
use agentmsg.Model.Scalars.{Uuid, uuid_nil}
use agentmsg.Model.Json.{Json, end, member}
use agentmsg.Model.Message.{SendResult}
use agentmsg.Model.Acknowledgement.{AckStatus}
use agentmsg.Sdk.Http.{ClientError, ok, err, Call, give, Transport, ◌>>=◌, ◌>>◌}
use agentmsg.Sdk.Messages.{ClientMessage, Encoder, items, message_json}
use agentmsg.Sdk.Client.{ClientConfig, Decoder, request, request_with, expect, decode}

-- What `SendMessage` sets in the message; `conversation` is the result of `uuid.New()`.
unfoldable pub addressed : ClientConfig → Uuid → ClientMessage → ClientMessage
addressed c conversation m = record m {
  sender_id = c.agent_id;
  tenant_id = c.tenant_id;
  conversation_id = if m.conversation_id == uuid_nil then conversation else m.conversation_id;
}

abbrev pointer_json : Encoder → Option ClientMessage → Json
pointer_json e none = Json.null
pointer_json e (some m) = message_json e m

-- The text of a status, with the constants of message.go.
unfoldable pub ack_status_text : AckStatus → String
ack_status_text AckStatus.unset = ""
ack_status_text AckStatus.received = "received"
ack_status_text AckStatus.processed = "processed"
ack_status_text AckStatus.rejected = "rejected"
ack_status_text AckStatus.failed = "failed"
ack_status_text (AckStatus.other s) = s

module _ (t : Transport) (c : ClientConfig) (e : Encoder) (d : Decoder) where
  unfoldable pub send_message : Uuid → Option ClientMessage → Call t.Store SendResult
  send_message conversation none = give (err ClientError.invalid_config)
  send_message conversation (some m) = do
    resp ←
        t.round_trip
          (request_with c "POST" "/api/v1/messages" (message_json e (addressed c conversation m)))
    expect d 201 resp
    decode d.send_result resp

  -- The messages are sent as they are.
  unfoldable pub send_batch_messages : List (Option ClientMessage) → Call t.Store (List SendResult)
  send_batch_messages ms = do
    resp ← t.round_trip (
        request_with c "POST" "/api/v1/messages/batch"
          (Json.object (member "messages" (Json.array (items (map (pointer_json e) ms))) end)))
    expect d 201 resp
    decode d.send_results resp

  unfoldable pub get_message : Uuid → Call t.Store ClientMessage
  get_message id = do
    resp ← t.round_trip (request c "GET" (str_append "/api/v1/messages/" (e.uuid id)))
    if resp.status == 404 then give (err ClientError.message_not_found) else give (ok tt)
    expect d 200 resp
    decode d.message resp

  unfoldable pub acknowledge_message : Uuid → AckStatus → Call t.Store (Unit {0})
  acknowledge_message id status = do
    resp ← t.round_trip (
        request_with c "POST" (str_append "/api/v1/messages/" (str_append (e.uuid id) "/ack"))
          (Json.object (member "status" (Json.text (ack_status_text status)) end)))
    expect d 200 resp
