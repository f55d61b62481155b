-- ===== src/Tests/Sdk.antt =====
-- The client at work.
use agentmsg.Prelude.{◌≡◌, refl, none, some, [], ◌∷◌, true, false}
use agentmsg.Exec.{Error}
use agentmsg.Model.Json.{Json}
use agentmsg.Model.Message.{MessageStatus, MessageType, DeliveryGuarantee}
use agentmsg.Services.Memory.All.{memory, text}
use agentmsg.Service.Messages.{MessageService, SendDraw}
use agentmsg.Api.Responses.{Context}
use agentmsg.Api.Messages.{Content}
use agentmsg.Api.Binding.{FieldDecoder}
use agentmsg.Sdk.Http.{ClientError, err, Transport}
use agentmsg.Sdk.Messages.{ClientMessage, Encoder}
use agentmsg.Sdk.Client.{ClientConfig, Decoder, decode_api_error}
use agentmsg.Sdk.Client.Messages.{send_message}
use agentmsg.Sdk.Served.{posting}
use agentmsg.Sdk.Served.Errors.{refusal, seen_error, decode_api_error-service_error}
use agentmsg.Sdk.Served.Refused.{send_message_refused}
use agentmsg.Tests.Fixtures.{empty_world, metadata}

abbrev decoder : Decoder
decoder = record {
  decimal = text;
  agent = λ a _. some a;
  agents = λ _. some [];
  agents_member = λ _. some [];
  send_result = λ _. some (record { message_id = 1; status = "pending"; delivered_at = none });
  send_results = λ _. some [];
  message = λ _. none;
  subscriptions = λ _. some [];
}

decode_api_error-service_error_example :
    decode_api_error decoder
      (refusal decoder "agent_not_found" "agent not found" Error.agent_not_found)
    ≡ ClientError.agent_not_found
unfolding seen_error
decode_api_error-service_error_example =
    decode_api_error-service_error decoder "agent_not_found" "agent not found" Error.agent_not_found
      refl

abbrev encoder : Encoder
encoder = record {
  uuid = text;
  time = text;
  base64 = λ _. "aGk=";
  number = λ n. Json.number n;
  message_type = λ _. "generic";
  delivery_guarantee = λ _. "at_least_once";
  message_status = λ _. "";
  metadata = λ _. Json.null;
  task_context = λ _. Json.null;
  agent = λ _. Json.null;
  capabilities = λ _. Json.null;
  subscription = λ _. Json.null;
}

abbrev fields : FieldDecoder
fields = record {
  message_type = λ _. some MessageType.generic;
  recipients = λ _. some (8 ∷ []);
  content = λ _. Content.text (104 ∷ []);
  metadata = λ _. none;
  delivery_guarantee = λ _. some DeliveryGuarantee.at_least_once;
  task_context = λ _. some none;
}

abbrev config : ClientConfig
config = record {
  api_key = "key";
  agent_id = 9;
  tenant_id = 1;
  base_url = "http://localhost:8080";
  ws_url = "";
  timeout = 1;
  on_connect = false;
  on_disconnect = false;
}

-- To agent 8.
abbrev hi : ClientMessage
hi = record {
  id = 0;
  conversation_id = 0;
  message_type = MessageType.generic;
  sender_id = 0;
  recipient_ids = 8 ∷ [];
  content = 104 ∷ 105 ∷ [];
  content_size = 0;
  content_type = "";
  metadata = metadata;
  delivery_guarantee = DeliveryGuarantee.at_least_once;
  status = MessageStatus.unset;
  task_context = none;
  trace_id = "";
  tenant_id = 0;
  created_at = 0;
  expires_at = none;
  processed_at = none;
}

abbrev service : MessageService
service = record { repo = true; ack_repo = true; redis = true }

abbrev context : Context
context = record { agent_id = text 9; tenant_id = text 1; trace_id = "" }

abbrev draw : SendDraw
draw = record { now = 1000; fresh_id = 2; fresh_conversation = 3 }

abbrev wire : Transport
wire = posting service fields (λ _. Json.null) (λ _ _. "m") draw 4 context

send_message_refused_example :
    ((x : ClientError) × ((send_message wire config encoder decoder 5 (some hi) empty_world).0
        ≡ err x))
    × ((send_message wire config encoder decoder 5 (some hi) empty_world).1 ≡ empty_world)
send_message_refused_example =
    send_message_refused service fields (λ _. Json.null) (λ _ _. "m") draw 4 context config encoder
      decoder 5 hi empty_world
