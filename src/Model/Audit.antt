-- ===== src/Model/Audit.antt =====
-- internal/model/audit.go: `AuditLog`, with its metadata as an association list.
use agentmsg.Prelude.{ℕ, String, Option, List}
use agentmsg.Model.Scalars.{Uuid, Time}

pub data AuditValue : Type 0 where
  text : String → AuditValue
  number : ℕ → AuditValue

abbrev pub AuditMetadata : Type 0
AuditMetadata = List (String × AuditValue)

pub record AuditLog : Type 0 where
  pub id : Uuid
  pub tenant_id : Option Uuid
  pub agent_id : Option Uuid
  pub request_id : String
  pub trace_id : String
  pub action : String
  pub resource_type : String
  pub resource_id : String
  pub method : String
  pub path : String
  pub status_code : ℕ
  pub client_ip : String
  pub user_agent : String
  pub metadata : AuditMetadata
  pub created_at : Time
