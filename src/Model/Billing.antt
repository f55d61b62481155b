-- ===== src/Model/Billing.antt =====
-- internal/model/billing.go: events, invoices and plans.
use agentmsg.Prelude.{ℕ, ℤ, Bool, true, false, String, Option, List}
use agentmsg.Model.Scalars.{Uuid, Time, Float64}

-- The constants of `BillingEventType`; `other` is any other text in the column.
pub data BillingEventType : Type 0 where
  message_sent message_received api_call storage bandwidth subscription : BillingEventType
  other : String → BillingEventType

-- `eventType == BillingEventMessageSent`
abbrev pub is_message_sent : BillingEventType → Bool
is_message_sent BillingEventType.message_sent = true
is_message_sent _ = false

pub data BillingStatus : Type 0 where
  pending active processed failed refunded : BillingStatus
  other : String → BillingStatus

pub record BillingEvent : Type 0 where
  pub id : Uuid
  pub tenant_id : Uuid
  pub agent_id : Uuid
  pub event_type : BillingEventType
  pub message_id : Option Uuid
  pub quantity : ℕ
  pub unit_price : Float64
  pub total_amount : Float64
  pub currency : String
  pub period_start : Time
  pub period_end : Time
  pub status : BillingStatus
  pub created_at : Time

pub data InvoiceStatus : Type 0 where
  draft pending paid overdue cancelled : InvoiceStatus
  other : String → InvoiceStatus

pub record InvoiceLineItem : Type 0 where
  pub description : String
  pub quantity : ℕ
  pub unit_price : Float64
  pub amount : Float64

pub record Invoice : Type 0 where
  pub id : Uuid
  pub tenant_id : Uuid
  pub invoice_number : String
  pub period_start : Time
  pub period_end : Time
  pub subtotal : Float64
  pub tax : Float64
  pub total : Float64
  pub currency : String
  pub status : InvoiceStatus
  pub due_date : Time
  pub paid_at : Option Time
  pub line_items : List InvoiceLineItem
  pub created_at : Time

pub data PlanType : Type 0 where
  free starter professional enterprise : PlanType
  other : String → PlanType

pub data PlanStatus : Type 0 where
  active deprecated : PlanStatus
  other : String → PlanStatus

abbrev pub is_active : PlanStatus → Bool
is_active PlanStatus.active = true
is_active _ = false

-- A quota or a limit of -1 stands for none.
pub record PricingPlan : Type 0 where
  pub id : Uuid
  pub name : String
  pub plan_type : PlanType
  pub price_monthly : Float64
  pub price_yearly : Float64
  pub message_quota : ℤ
  pub agent_limit : ℤ
  pub features : List String
  pub status : PlanStatus
  pub created_at : Time
