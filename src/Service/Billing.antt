-- ===== src/Service/Billing.antt =====
-- `BillingService` (internal/service/billing.go). Arguments stand for the arithmetic of float64, the
-- calendar of package time, and the text of an invoice's number.
pub mod Quota
pub mod Invoiced
pub mod LastDay
pub mod Usage
use agentmsg.Prelude.{
  ℕ, ◌+◌, ◌*◌, ◌≡◌, Bool, Option, none, some, String, List, [], ◌∷◌, suc, ltb, if◌then◌else◌,
}
use agentmsg.Exec.{Error, ok, Exec, pure, raise, ◌>>=◌, ◌>>◌}
use agentmsg.Model.Scalars.{Uuid, Time, Float64}
use agentmsg.Model.Tenant.{Tenant, TenantUsage}
use agentmsg.Model.Billing.{
  BillingEvent, BillingEventType, BillingStatus, Invoice, InvoiceLineItem, InvoiceStatus,
  PricingPlan, is_message_sent,
}
use agentmsg.Services.Redis.{second}
use agentmsg.Services.World.{Services, World}
use agentmsg.Repository.Billing as Rows

abbrev pub day : Time
day = 24 * (60 * (60 * second))

-- Numbers of type float64: `literal` is the number that a text of the source denotes.
pub record Floats : Type 0 where
  pub literal : String → Float64
  pub of_int : ℕ → Float64
  pub add : Float64 → Float64 → Float64
  pub mul : Float64 → Float64 → Float64

-- Package time, in UTC. `date y m d` is `time.Date(y, m, d, 0, 0, 0, 0, time.UTC)`, which also takes
-- days and months out of their range: day 0 is the day before day 1.
pub record Calendar : Type 0 where
  pub year : Time → ℕ
  pub month : Time → ℕ
  pub date : ℕ → ℕ → ℕ → Time
  pub unix : Time → ℕ
  -- `t.AddDate(0, 0, days)`
  pub add_days : ℕ → Time → Time
  pub day_zero : (y m : ℕ) → date y (suc m) 0 + day ≡ date y (suc m) 1

module _ (cal : Calendar) where
  unfoldable pub billing_period_start : Time → Time
  billing_period_start now = cal.date (cal.year now) (cal.month now) 1

  unfoldable pub billing_period_end : Time → Time
  billing_period_end now = cal.date (cal.year now) (suc (cal.month now)) 0

-- `event.Quantity` of the messages sent, added up.
unfoldable pub message_count : List BillingEvent → ℕ
message_count [] = 0
message_count (e ∷ es) =
    if is_message_sent e.event_type then e.quantity + message_count es else message_count es

module _ (fl : Floats) where
  unfoldable pub message_amount : ℕ → Float64
  message_amount n = fl.mul (fl.of_int n) (fl.literal "0.001")

  unfoldable pub line_items : ℕ → List InvoiceLineItem
  line_items n =
      if ltb 0 n
      then record {
        description = "Message Delivery";
        quantity = n;
        unit_price = fl.literal "0.001";
        amount = message_amount n;
      }
        ∷ []
      else []

  unfoldable pub subtotal : ℕ → Float64
  subtotal n = if ltb 0 n then fl.add (fl.literal "0.0") (message_amount n) else fl.literal "0.0"

-- The results of `uuid.New()` and `time.Now()` in the order of the calls.
module _ (cal : Calendar) (fl : Floats) where
  unfoldable pub message_sent_event : Uuid → Uuid → Uuid → Uuid → Time → Time → Time → BillingEvent
  message_sent_event id tenant agent message at_start at_end now = record {
    id = id;
    tenant_id = tenant;
    agent_id = agent;
    event_type = BillingEventType.message_sent;
    message_id = some message;
    quantity = 1;
    unit_price = fl.literal "0.001";
    total_amount = fl.literal "0.001";
    currency = "USD";
    period_start = billing_period_start cal at_start;
    period_end = billing_period_end cal at_end;
    status = BillingStatus.pending;
    created_at = now;
  }

  unfoldable pub invoice_of :
      Uuid → String → Uuid → Time → Time → Time → List BillingEvent → Invoice
  invoice_of id number tenant start end now events =
      let n = message_count events in
      let tax = fl.mul (subtotal fl n) (fl.literal "0.1") in
      record {
        id = id;
        tenant_id = tenant;
        invoice_number = number;
        period_start = start;
        period_end = end;
        subtotal = subtotal fl n;
        tax = tax;
        total = fl.add (subtotal fl n) tax;
        currency = "USD";
        status = InvoiceStatus.pending;
        due_date = cal.add_days 30 end;
        paid_at = none;
        line_items = line_items fl n;
        created_at = now;
      }

module _ ⦃sv : Services⦄ (cal : Calendar) (fl : Floats) (round : ℕ → Float64 → Float64) where
  unfoldable pub record_message_sent :
      Uuid → Uuid → Uuid → Uuid → Time → Time → Time → Exec (World sv) (Unit {0})
  record_message_sent id tenant agent message at_start at_end now =
      Rows.create_event round
        (message_sent_event cal fl id tenant agent message at_start at_end now)

  -- `number` is the result of `generateInvoiceNumber`.
  unfoldable pub generate_invoice :
      (missing : List String → List String → Option String)
      → Uuid
      → String
      → Uuid
      → Time
      → Time
      → Time
      → Exec (World sv) Invoice
  generate_invoice missing id number tenant start end now = do
    events ← Rows.get_events_in_period missing tenant start end
    let invoice = invoice_of cal fl id number tenant start end now events
    Rows.create_invoice round invoice
    pure invoice

module _ ⦃sv : Services⦄ (cal : Calendar) where
  unfoldable pub get_usage_stats : Uuid → Time → Time → Exec (World sv) TenantUsage
  get_usage_stats tenant now at_end = do
    messages ← Rows.count_messages_in_period tenant (billing_period_start cal now)
    pure (record {
      message_count = messages;
      bandwidth_bytes = 0;
      storage_bytes = 0;
      api_calls = messages;
      reset_at = cal.unix (billing_period_end cal at_end);
    })

module _ ⦃sv : Services⦄ (missing : List String → List String → Option String) where
  unfoldable pub get_pricing_plans : Exec (World sv) (List PricingPlan)
  get_pricing_plans = Rows.list_active_plans missing

  unfoldable pub check_quota : (cal : Calendar) → Uuid → Time → Time → Exec (World sv) Bool
  check_quota cal tenant now at_end = do
    t ← Rows.get_tenant_or_error missing tenant
    usage ← get_usage_stats cal tenant now at_end
    pure (ltb usage.message_count t.limits.message_per_month)
