-- ===== src/Tests/Fixtures.antt =====
-- A message, an agent, and a world of services in memory.
use agentmsg.Prelude.{none, [], ◌∷◌}
use agentmsg.Model.Json.{Members}
use agentmsg.Model.Message.{
  Message, MessageMetadata, MessageStatus, MessageType, DeliveryGuarantee, RecipientStr,
}
use agentmsg.Model.Agent.{Agent, AgentStatus, Capability}
use agentmsg.Services.World.{World}
use agentmsg.Services.Memory.Keys.{no_keys, no_counters}
use agentmsg.Services.Memory.All.{memory}

abbrev pub metadata : MessageMetadata
metadata = record {
  tags = [];
  correlation_id = "";
  reply_to = none;
  routing_hints = none;
  compression = "";
  encoding = "";
  custom = Members.end;
}

-- From agent 7 to the agents 8 and 9 of tenant 1.
abbrev pub hello : Message
hello = record {
  id = 5;
  conversation_id = 6;
  message_type = MessageType.generic;
  sender_id = 7;
  recipient_ids = 8 ∷ 9 ∷ [];
  recipient_str = RecipientStr.encoded (8 ∷ 9 ∷ []);
  content = 104 ∷ 105 ∷ [];
  content_size = 2;
  content_type = "text/plain; charset=utf-8";
  metadata = metadata;
  delivery_guarantee = DeliveryGuarantee.at_least_once;
  status = MessageStatus.pending;
  task_context = none;
  trace_id = "t";
  tenant_id = 1;
  created_at = 100;
  expires_at = none;
  processed_at = none;
}

-- An online agent of tenant 1.
abbrev pub translation : Capability
translation = record {
  kind = "translation";
  description = "";
  examples = [];
  parameters = none;
  constraints = none;
  quality = none;
}

abbrev pub translator : Agent
translator = record {
  id = 7;
  tenant_id = 1;
  did = "did:7";
  public_key = "";
  name = "t";
  version = "1";
  provider = "";
  tier = "";
  capabilities = translation ∷ [];
  endpoints = [];
  trust_level = 1;
  verified_at = none;
  status = AgentStatus.online;
  last_heartbeat = 0;
  created_at = 10;
  updated_at = 10;
}

abbrev pub empty_world : World memory
empty_world = record {
  agents = record { held = []; faults = [] };
  tenants = record { held = []; faults = [] };
  messages = record { held = []; faults = [] };
  acknowledgements = record { held = []; faults = [] };
  dead_letters = record { held = []; faults = [] };
  billing_events = record { held = []; faults = [] };
  invoices = record { held = []; faults = [] };
  pricing_plans = record { held = []; faults = [] };
  audit_logs = record { held = []; faults = [] };
  pending = record { held = []; faults = [] };
  dlq_pending = record { held = []; faults = [] };
  subscriptions = record { held = []; faults = [] };
  channels = record { held = []; faults = [] };
  keys = no_keys;
  counters = no_counters;
}

-- The message is stored.
abbrev pub one_message : World memory
one_message = record empty_world { messages = record { held = hello ∷ []; faults = [] } }
