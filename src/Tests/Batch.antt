-- ===== src/Tests/Batch.antt =====
-- Batches and subscriptions at work.
use agentmsg.Prelude.{ℕ, suc, ◌≡◌, ◌≢◌, refl, true, none, some, List, [], ◌∷◌, In, All}
use agentmsg.Model.Scalars.{Uuid}
use agentmsg.Model.Json.{Members}
use agentmsg.Model.Message.{SendResult, MessageType, DeliveryGuarantee}
use agentmsg.Model.Subscription.{Subscription, SubStatus, SubType}
use agentmsg.Services.World.{World}
use agentmsg.Services.Memory.All.{memory, text}
use agentmsg.Repository.Messages
use agentmsg.Repository.Pending.{push_pending}
use agentmsg.Repository.Subscriptions
use agentmsg.Service.Messages.{MessageService, check_message, prepare, send}
use agentmsg.Service.Subscriptions.{
  dated, create_subscription, list_subscriptions, delete_subscription,
}
use agentmsg.Service.Subscriptions.Owned.{IsFiled, create-IsFiled}
use agentmsg.Service.Subscriptions.Listed.{
  list_subscriptions-create_subscription, list_subscriptions-delete_subscription,
}
use agentmsg.Api.Responses.{Context, parse_uuid, context_uuid}
use agentmsg.Api.Messages.{Content, MessageRequest, serialize_content, build_message}
use agentmsg.Api.Batch.{BatchDraw, failed_with, send_one, send_each, send_batch_messages}
use agentmsg.Api.Batch.Settled.{AllSettled}
use agentmsg.Api.Batch.Answered.{send_batch_messages-AllSettled}
use agentmsg.Tests.Fixtures.{empty_world}

abbrev service : MessageService
service = record { repo = true; ack_repo = true; redis = true }

-- Agent 9 of tenant 1.
abbrev context : Context
context = record { agent_id = text 9; tenant_id = text 1; trace_id = "" }

abbrev greeting : MessageRequest
greeting = record {
  message_type = MessageType.generic;
  recipients = 8 ∷ [];
  content = Content.text (104 ∷ []);
  metadata = Members.end;
  delivery_guarantee = DeliveryGuarantee.unset;
  task_context = none;
}

abbrev no_content : MessageRequest
no_content = record greeting { content = Content.missing }

abbrev draws : ℕ → BatchDraw
draws n = record {
  sending = record { now = 1000; fresh_id = suc n; fresh_conversation = 50 };
  conversation = 60;
}

abbrev results : List SendResult
results =
    failed_with 0 "content is required"
    ∷ record { message_id = 2; status = "pending"; delivered_at = none }
    ∷ []

send_batch_messages-AllSettled_example :
    (rqs : List MessageRequest) × (sender tenant : Uuid) × (some (no_content ∷ greeting ∷ [])
      ≡ some rqs)
    × (memory.uuids.parse (text 9) ≡ some sender)
    × (memory.uuids.parse (text 1) ≡ some tenant)
    × AllSettled service sender tenant ""
        (send_batch_messages service draws context
          (some (no_content ∷ greeting ∷ []))
          empty_world).1
        draws
        0
        rqs
        results
unfolding send_batch_messages send_each send_one serialize_content build_message send check_message
    prepare Messages.create push_pending parse_uuid context_uuid
send_batch_messages-AllSettled_example =
    send_batch_messages-AllSettled service draws context (some (no_content ∷ greeting ∷ []))
      empty_world results refl

-- Agent 9 subscribes to everything.
abbrev all_messages : Subscription
all_messages = record {
  id = 4;
  agent_id = 9;
  tenant_id = 1;
  kind = SubType.direct;
  wanted = record {
    agent_ids = [];
    capability_types = [];
    topics = [];
    message_types = [];
    tags = [];
  };
  status = SubStatus.active;
  created_at = 0;
}

empty-IsFiled : IsFiled empty_world
empty-IsFiled agent f x h = cc

abbrev subscribed : World memory
subscribed = (Subscriptions.create all_messages empty_world).1

list_subscriptions-create_subscription_example :
    IsFiled (create_subscription service 77 (some all_messages) empty_world).1
    × In (dated 77 all_messages) (record all_messages { created_at = 77 } ∷ [])
    × All (λ x. x.agent_id ≡ 9) (record all_messages { created_at = 77 } ∷ [])
unfolding create_subscription list_subscriptions dated Subscriptions.create Subscriptions.list
    Subscriptions.decode_all
list_subscriptions-create_subscription_example =
    list_subscriptions-create_subscription service 77 all_messages empty_world
      (record all_messages { created_at = 77 } ∷ []) empty-IsFiled refl refl

subscribed-IsFiled : IsFiled subscribed
subscribed-IsFiled = create-IsFiled all_messages empty_world empty-IsFiled

list_subscriptions-delete_subscription_example :
    IsFiled (delete_subscription service 9 4 subscribed).1
    × All (λ (x : Subscription). (x.agent_id ≡ 9) × (x.id ≢ 4)) []
unfolding delete_subscription list_subscriptions Subscriptions.create Subscriptions.delete
    Subscriptions.list Subscriptions.decode_all
list_subscriptions-delete_subscription_example =
    list_subscriptions-delete_subscription service 9 4 subscribed [] subscribed-IsFiled refl refl
