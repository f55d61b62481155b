-- ===== src/Model/Agent.antt =====
-- internal/model/agent.go
use agentmsg.Prelude.{ℕ, Bool, true, false, String, Option, List}
use agentmsg.Model.Scalars.{Uuid, Time, Float64}

pub data AgentStatus : Type 0 where
  unset online away busy offline : AgentStatus
  other : String → AgentStatus

abbrev pub is_online : AgentStatus → Bool
is_online AgentStatus.online = true
is_online _ = false

-- The text of a status, with the constants of the file.
unfoldable pub agent_status_text : AgentStatus → String
agent_status_text AgentStatus.unset = ""
agent_status_text AgentStatus.online = "online"
agent_status_text AgentStatus.away = "away"
agent_status_text AgentStatus.busy = "busy"
agent_status_text AgentStatus.offline = "offline"
agent_status_text (AgentStatus.other s) = s

pub record CapabilityParams : Type 0 where
  pub input_format : String
  pub output_format : String
  pub max_duration_ms : ℕ
  pub max_tokens : ℕ

pub record CapabilityConstraints : Type 0 where
  pub rate_limit : ℕ
  pub cost_per_call : Float64
  pub quota : ℕ
  pub quota_used : ℕ

pub record CapabilityQuality : Type 0 where
  pub success_rate : Float64
  pub avg_latency_ms : ℕ
  pub rating : Float64

-- `kind` is the field `Type`, a `CapabilityType`, which is a string.
pub record Capability : Type 0 where
  pub kind : String
  pub description : String
  pub examples : List String
  pub parameters : Option CapabilityParams
  pub constraints : Option CapabilityConstraints
  pub quality : Option CapabilityQuality

pub record Endpoint : Type 0 where
  pub kind : String
  pub url : String
  pub weight : ℕ
  pub is_primary : Bool

pub record Agent : Type 0 where
  pub id : Uuid
  pub tenant_id : Uuid
  pub did : String
  pub public_key : String
  pub name : String
  pub version : String
  pub provider : String
  pub tier : String
  pub capabilities : List Capability
  pub endpoints : List Endpoint
  pub trust_level : ℕ
  pub verified_at : Option Time
  pub status : AgentStatus
  pub last_heartbeat : Time
  pub created_at : Time
  pub updated_at : Time

pub record AgentStats : Type 0 where
  pub total : ℕ
  pub online : ℕ
  pub away : ℕ
  pub busy : ℕ
  pub offline : ℕ
  pub timestamp : ℕ
