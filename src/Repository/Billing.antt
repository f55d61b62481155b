-- ===== src/Repository/Billing.antt =====
-- `BillingRepository` and `PlanRepository` of internal/repository/billing.go. What they rely on is
-- an argument: `missing` is sqlx's check that a record has a field for every column, and `round` is
-- how PostgreSQL stores an amount in a column with that many decimals.
pub mod Scanned
pub mod Periods
use Prim.Native.String.{◌++◌ as str_append}
use agentmsg.Prelude.{ℕ, Bool, ◌&&◌, Option, none, some, String, List, [], ◌∷◌, length, leb, ◌==◌}
use agentmsg.Exec.{Error, ok, Exec, pure, raise, ◌>>=◌}
use agentmsg.Model.Scalars.{Uuid, Time, Float64}
use agentmsg.Model.Tenant.{Tenant}
use agentmsg.Model.Billing.{BillingEvent, Invoice, PricingPlan, is_active}
use agentmsg.Services.Table.{unordered, ascending}
use agentmsg.Services.World.{Services, World}
use agentmsg.Repository.Statements.{
  get_tenant, select_messages, insert_event, select_events, insert_invoice, get_plan, select_plans,
}

-- The columns of the tables (internal/repository/migrations), and those that a `db` tag of the
-- record names.
abbrev pub tenant_columns : List String
tenant_columns =
    "id" ∷ "name" ∷ "slug" ∷ "plan" ∷ "limits" ∷ "usage" ∷ "message_used" ∷ "agent_count" ∷ "status"
    ∷ "sso_enabled" ∷ "billing_email" ∷ "created_at" ∷ "updated_at" ∷ []

abbrev pub tenant_fields : List String
tenant_fields =
    "id" ∷ "name" ∷ "slug" ∷ "plan" ∷ "limits" ∷ "usage" ∷ "message_used" ∷ "agent_count" ∷ "status"
    ∷ "sso_enabled" ∷ "billing_email" ∷ []

abbrev pub event_columns : List String
event_columns =
    "id" ∷ "tenant_id" ∷ "agent_id" ∷ "event_type" ∷ "message_id" ∷ "quantity" ∷ "unit_price"
    ∷ "total_amount" ∷ "currency" ∷ "period_start" ∷ "period_end" ∷ "status" ∷ "created_at" ∷ []

abbrev pub plan_columns : List String
plan_columns =
    "id" ∷ "name" ∷ "plan_type" ∷ "price_monthly" ∷ "price_yearly" ∷ "message_quota" ∷ "agent_limit"
    ∷ "features" ∷ "status" ∷ "created_at" ∷ []

abbrev pub plan_fields : List String
plan_fields =
    "id" ∷ "name" ∷ "plan_type" ∷ "price_monthly" ∷ "price_yearly" ∷ "message_quota" ∷ "agent_limit"
    ∷ "status" ∷ "created_at" ∷ []

-- The row of an event, and that of an invoice, whose line items are not in the statement.
unfoldable pub event_row : (round : ℕ → Float64 → Float64) → BillingEvent → BillingEvent
event_row round e = record e {
  unit_price = round 6 e.unit_price;
  total_amount = round 2 e.total_amount;
}

unfoldable pub invoice_row : (round : ℕ → Float64 → Float64) → Invoice → Invoice
invoice_row round i = record i {
  subtotal = round 2 i.subtotal;
  tax = round 2 i.tax;
  total = round 2 i.total;
  line_items = [];
}

-- `tenant_id = $1 AND created_at >= $2 AND created_at <= $3`
unfoldable pub in_period : Uuid → Time → Time → BillingEvent → Bool
in_period tenant start end e =
    (e.tenant_id == tenant) && (leb start e.created_at && leb e.created_at end)

module _ ⦃sv : Services⦄ (round : ℕ → Float64 → Float64) where
  unfoldable pub create_event : BillingEvent → Exec (World sv) (Unit {0})
  create_event e = insert_event (event_row round e)

  unfoldable pub create_invoice : Invoice → Exec (World sv) (Unit {0})
  create_invoice i = insert_invoice (invoice_row round i)

module _ ⦃sv : Services⦄ where
  unfoldable pub count_messages_in_period : Uuid → Time → Exec (World sv) ℕ
  count_messages_in_period tenant since = do
    messages ← select_messages (record {
      wanted = λ m. (m.tenant_id == tenant) && leb since m.created_at;
      order = unordered;
      limit = none;
      offset = none;
    })
    λ w. (ok (length messages), w)

-- `missing columns fields` is a column that no field takes.
module _ ⦃sv : Services⦄ (missing : List String → List String → Option String) where
  -- sqlx reads the rows of a `SELECT *` only into a record that has a field for every column.
  unfoldable pub scanned :
      {A : Type 0} → List String → List String → Exec (World sv) A → Exec (World sv) A
  scanned columns fields m = do
    found ← m
    elim (missing columns fields) [
      | some c ↦ raise (Error.external (str_append "missing destination name " c))
      | none ↦ pure found
    ]

  unfoldable pub get_events_in_period : Uuid → Time → Time → Exec (World sv) (List BillingEvent)
  get_events_in_period tenant start end = scanned event_columns event_columns (
      select_events (record {
        wanted = in_period tenant start end;
        order = unordered;
        limit = none;
        offset = none;
      }))

  -- `TenantRepository.GetByID` of postgres.go.
  unfoldable pub get_tenant_by_id : Uuid → Exec (World sv) (Option Tenant)
  get_tenant_by_id tenant = scanned tenant_columns tenant_fields (get_tenant (λ t. t.id == tenant))

  -- `sql.ErrNoRows`
  abbrev pub tenant_or_error : Option Tenant → Exec (World sv) Tenant
  tenant_or_error none = raise (Error.external "sql: no rows in result set")
  tenant_or_error (some t) = pure t

  -- `BillingRepository.GetTenant` issues the same statement.
  unfoldable pub get_tenant_or_error : Uuid → Exec (World sv) Tenant
  get_tenant_or_error tenant = get_tenant_by_id tenant >>= tenant_or_error

  -- Prices are not negative, and the bit patterns of such numbers are in their order.
  unfoldable pub list_active_plans : Exec (World sv) (List PricingPlan)
  list_active_plans = scanned plan_columns plan_fields (
      select_plans (record {
        wanted = λ p. is_active p.status;
        order = ascending (λ p. p.price_monthly);
        limit = none;
        offset = none;
      }))

  unfoldable pub get_plan_by_id : Uuid → Exec (World sv) (Option PricingPlan)
  get_plan_by_id id = scanned plan_columns plan_fields (get_plan (λ p. p.id == id))
