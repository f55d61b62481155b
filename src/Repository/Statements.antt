-- ===== src/Repository/Statements.antt =====
-- `GetContext`, `SelectContext` and `ExecContext` on one table of the world. A method of the same
-- name with another receiver (`PostgresDB.GetMessageByID`) issues the same statement.
use agentmsg.Prelude.{ℕ, Bool, ltb, Option, List}
use agentmsg.Exec.{ok, Exec, ◌>>=◌}
use agentmsg.Model.Message.{Message}
use agentmsg.Model.Acknowledgement.{Acknowledgement}
use agentmsg.Model.DeadLetter.{DeadLetterEntry}
use agentmsg.Model.Tenant.{Tenant}
use agentmsg.Model.Billing.{BillingEvent, Invoice, PricingPlan}
use agentmsg.Model.Audit.{AuditLog}
use agentmsg.Services.Table.{Query}
use agentmsg.Services.World.{AgentRow, Services, World}

module _ ⦃sv : Services⦄ where
  abbrev pub get_message : (Message → Bool) → Exec (World sv) (Option Message)
  get_message p w = let (r, t) = sv.messages.get p w.messages in (r, record w { messages = t })

  abbrev pub select_messages : Query Message → Exec (World sv) (List Message)
  select_messages q w =
      let (r, t) = sv.messages.select q w.messages in (r, record w { messages = t })

  abbrev pub insert_message : Message → Exec (World sv) (Unit {0})
  insert_message m w =
      let (r, t) = sv.messages.insert m w.messages in (r, record w { messages = t })

  abbrev pub update_messages : (Message → Bool) → (Message → Message) → Exec (World sv) ℕ
  update_messages p f w =
      let (r, t) = sv.messages.update p f w.messages in (r, record w { messages = t })

  abbrev pub get_ack : (Acknowledgement → Bool) → Exec (World sv) (Option Acknowledgement)
  get_ack p w =
      let (r, t) = sv.acknowledgements.get p w.acknowledgements in
      (r, record w { acknowledgements = t })

  abbrev pub insert_ack : Acknowledgement → Exec (World sv) (Unit {0})
  insert_ack a w =
      let (r, t) = sv.acknowledgements.insert a w.acknowledgements in
      (r, record w { acknowledgements = t })

  abbrev pub select_entries : Query DeadLetterEntry → Exec (World sv) (List DeadLetterEntry)
  select_entries q w =
      let (r, t) = sv.dead_letters.select q w.dead_letters in (r, record w { dead_letters = t })

  abbrev pub insert_entry : DeadLetterEntry → Exec (World sv) (Unit {0})
  insert_entry e w =
      let (r, t) = sv.dead_letters.insert e w.dead_letters in (r, record w { dead_letters = t })

  abbrev pub update_entries :
      (DeadLetterEntry → Bool) → (DeadLetterEntry → DeadLetterEntry) → Exec (World sv) ℕ
  update_entries p f w =
      let (r, t) = sv.dead_letters.update p f w.dead_letters in (r, record w { dead_letters = t })

  abbrev pub get_agent : (AgentRow → Bool) → Exec (World sv) (Option AgentRow)
  get_agent p w = let (r, t) = sv.agents.get p w.agents in (r, record w { agents = t })

  abbrev pub select_agents : Query AgentRow → Exec (World sv) (List AgentRow)
  select_agents q w = let (r, t) = sv.agents.select q w.agents in (r, record w { agents = t })

  abbrev pub insert_agent : AgentRow → Exec (World sv) (Unit {0})
  insert_agent a w = let (r, t) = sv.agents.insert a w.agents in (r, record w { agents = t })

  abbrev pub update_agents : (AgentRow → Bool) → (AgentRow → AgentRow) → Exec (World sv) ℕ
  update_agents p f w = let (r, t) = sv.agents.update p f w.agents in (r, record w { agents = t })

-- `SELECT EXISTS(SELECT 1 FROM … WHERE …)` finds a row or none.
module _ ⦃sv : Services⦄ where
  abbrev pub get_tenant : (Tenant → Bool) → Exec (World sv) (Option Tenant)
  get_tenant p w = let (r, t) = sv.tenants.get p w.tenants in (r, record w { tenants = t })

module _ ⦃sv : Services⦄ where
  abbrev pub insert_event : BillingEvent → Exec (World sv) (Unit {0})
  insert_event e w =
      let (r, t) = sv.billing_events.insert e w.billing_events in
      (r, record w { billing_events = t })

  abbrev pub select_events : Query BillingEvent → Exec (World sv) (List BillingEvent)
  select_events q w =
      let (r, t) = sv.billing_events.select q w.billing_events in
      (r, record w { billing_events = t })

  abbrev pub insert_audit_log : AuditLog → Exec (World sv) (Unit {0})
  insert_audit_log e w =
      let (r, t) = sv.audit_logs.insert e w.audit_logs in (r, record w { audit_logs = t })

  abbrev pub insert_invoice : Invoice → Exec (World sv) (Unit {0})
  insert_invoice i w =
      let (r, t) = sv.invoices.insert i w.invoices in (r, record w { invoices = t })

  abbrev pub get_plan : (PricingPlan → Bool) → Exec (World sv) (Option PricingPlan)
  get_plan p w =
      let (r, t) = sv.pricing_plans.get p w.pricing_plans in (r, record w { pricing_plans = t })

  abbrev pub select_plans : Query PricingPlan → Exec (World sv) (List PricingPlan)
  select_plans q w =
      let (r, t) = sv.pricing_plans.select q w.pricing_plans in (r, record w { pricing_plans = t })

-- `_, err := db.ExecContext(…); return err`
abbrev pub only_error : {S : Type 0} → Exec S ℕ → Exec S (Unit {0})
only_error m = m >>= λ _ s. (ok tt, s)

-- `rowsAffected`
unfoldable pub rows_affected : {S : Type 0} → Exec S ℕ → Exec S Bool
rows_affected m = m >>= λ n s. (ok (ltb 0 n), s)
