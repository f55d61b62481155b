-- ===== src/Model/Subscription.antt =====
-- internal/model/tenant.go: `Subscription` and what it holds.
use agentmsg.Prelude.{ℕ, String, List}
use agentmsg.Model.Scalars.{Uuid}

pub data SubType : Type 0 where
  direct capability topic pattern : SubType
  other : String → SubType

pub data SubStatus : Type 0 where
  active paused cancelled : SubStatus
  other : String → SubStatus

pub record SubscriptionFilter : Type 0 where
  pub agent_ids : List Uuid
  pub capability_types : List String
  pub topics : List String
  pub message_types : List String
  pub tags : List (String × String)

-- `created_at` is in seconds.
pub record Subscription : Type 0 where
  pub id : Uuid
  pub agent_id : Uuid
  pub tenant_id : Uuid
  pub kind : SubType
  pub wanted : SubscriptionFilter
  pub status : SubStatus
  pub created_at : ℕ
