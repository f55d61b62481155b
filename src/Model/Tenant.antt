-- ===== src/Model/Tenant.antt =====
-- internal/model/tenant.go: `Tenant` and what it holds.
use agentmsg.Prelude.{ℕ, Bool, String}
use agentmsg.Model.Scalars.{Uuid, Float64}

pub record TenantLimits : Type 0 where
  pub message_per_month : ℕ
  pub max_agents : ℕ
  pub max_connections : ℕ
  pub retention_days : ℕ
  pub sla_percent : Float64

pub record TenantUsage : Type 0 where
  pub message_count : ℕ
  pub bandwidth_bytes : ℕ
  pub storage_bytes : ℕ
  pub api_calls : ℕ
  pub reset_at : ℕ

pub record Tenant : Type 0 where
  pub id : Uuid
  pub name : String
  pub slug : String
  pub plan : String
  pub limits : TenantLimits
  pub usage : TenantUsage
  pub message_used : ℕ
  pub agent_count : ℕ
  pub status : String
  pub sso_enabled : Bool
  pub billing_email : String
