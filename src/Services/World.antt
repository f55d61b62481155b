-- ===== src/Services/World.antt =====
-- All services of the program and their state.
use agentmsg.Prelude.{◌≡◌, String, Option, some}
use agentmsg.Model.Scalars.{Uuid, Time}
use agentmsg.Model.Message.{Message}
use agentmsg.Model.Acknowledgement.{Acknowledgement}
use agentmsg.Model.DeadLetter.{DeadLetterEntry, DeadLetterPayload}
use agentmsg.Model.Agent.{Agent}
use agentmsg.Model.Tenant.{Tenant}
use agentmsg.Model.Subscription.{Subscription}
use agentmsg.Model.Billing.{BillingEvent, Invoice, PricingPlan}
use agentmsg.Model.Audit.{AuditLog}
use agentmsg.Services.Table.{Table}
use agentmsg.Services.Redis.{Queue, SortedSet, Hashes, Channels, Keys, Counters}

-- A text on the list `message:pending`: the JSON text of a message, or one that does not decode.
pub data QueueItem : Type 0 where
  message : Message → QueueItem
  malformed : String → QueueItem

-- A text in a hash `subscriptions:…`: the JSON text of a subscription, or one that does not decode.
pub data SubscriptionItem : Type 0 where
  subscription : Subscription → SubscriptionItem
  garbled : String → SubscriptionItem

-- A row of the table `agents`: `deleted_at` has no field in `model.Agent`.
pub record AgentRow : Type 0 where
  pub agent : Agent
  pub open agent use *
  pub deleted_at : Option Time

-- github.com/google/uuid
pub record UuidText : Type 0 where
  pub text : Uuid → String
  pub parse : String → Option Uuid
  pub parse-text : (id : Uuid) → parse (text id) ≡ some id

pub record Services : Type 1 where
  pub agents : Table AgentRow (λ r. r.id)
  pub tenants : Table Tenant (λ t. t.id)
  pub messages : Table Message (λ m. m.id)
  pub acknowledgements : Table Acknowledgement (λ a. a.id)
  pub dead_letters : Table DeadLetterEntry (λ e. e.id)
  pub billing_events : Table BillingEvent (λ e. e.id)
  pub invoices : Table Invoice (λ i. i.id)
  pub pricing_plans : Table PricingPlan (λ p. p.id)
  pub audit_logs : Table AuditLog (λ e. e.id)
  pub pending : Queue QueueItem
  pub dlq_pending : SortedSet DeadLetterPayload
  pub subscriptions : Hashes SubscriptionItem
  pub channels : Channels
  pub keys : Keys
  pub counters : Counters
  pub uuids : UuidText

pub record World (sv : Services) : Type 0 where
  pub agents : sv.agents.Store
  pub tenants : sv.tenants.Store
  pub messages : sv.messages.Store
  pub acknowledgements : sv.acknowledgements.Store
  pub dead_letters : sv.dead_letters.Store
  pub billing_events : sv.billing_events.Store
  pub invoices : sv.invoices.Store
  pub pricing_plans : sv.pricing_plans.Store
  pub audit_logs : sv.audit_logs.Store
  pub pending : sv.pending.Store
  pub dlq_pending : sv.dlq_pending.Store
  pub subscriptions : sv.subscriptions.Store
  pub channels : sv.channels.Store
  pub keys : sv.keys.Store
  pub counters : sv.counters.Store
