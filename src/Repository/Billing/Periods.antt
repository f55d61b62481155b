-- ===== src/Repository/Billing/Periods.antt =====
-- The statements of billing that select by a period.
use agentmsg.Prelude.{
  ◌≡◌, true, Option, String, List, In, All, none, length, filter, ◌==◌, ◌&&◌, leb, ℕ, inl, inr, ap,
  arith,
}
use agentmsg.Exec.{ok, ok_injective, Result-cases}
use agentmsg.Model.Scalars.{Uuid, Time}
use agentmsg.Model.Message.{Message}
use agentmsg.Model.Billing.{BillingEvent}
use agentmsg.Services.Table.{Query, unordered}
use agentmsg.Services.World.{Services, World}
use agentmsg.Repository.Billing.{
  in_period, get_events_in_period, count_messages_in_period, event_columns,
}
use agentmsg.Repository.Billing.Scanned.{scanned_ok, world-scanned}

module _ ⦃sv : Services⦄ where
  -- The events that come back are in the table and in the period, and no event of it is left out.
  pub get_events_in_period-All :
      (missing : List String → List String → Option String) (tenant : Uuid) (start end : Time)
      (w : World sv) (events : List BillingEvent)
      → (get_events_in_period missing tenant start end w).0 ≡ ok events
      → All
          (λ e.
            (in_period tenant start end e ≡ true) × In e (sv.billing_events.rows w.billing_events))
          events
        × (length events
            ≡ length
                (filter (in_period tenant start end) (sv.billing_events.rows w.billing_events)))
  unfolding get_events_in_period
  get_events_in_period-All missing tenant start end w events h =
      let q : Query BillingEvent = record {
        wanted = in_period tenant start end;
        order = unordered;
        limit = none;
        offset = none;
      } in
      let (hits, _, all) =
        sv.billing_events.select_found q w.billing_events events
          (scanned_ok missing event_columns event_columns _ w events h) in
      (hits, all)

  pub get_events_in_period-invoices :
      (missing : List String → List String → Option String) (tenant : Uuid) (start end : Time)
      (w : World sv)
      → ((get_events_in_period missing tenant start end w).1).invoices ≡ w.invoices
  unfolding get_events_in_period
  get_events_in_period-invoices missing tenant start end w =
      ap (λ x. x.invoices) (world-scanned missing event_columns event_columns _ w)

  -- The messages of the tenant since then, each counted once.
  pub count_messages_in_period-length :
      (tenant : Uuid) (since : Time) (w : World sv) (n : ℕ)
      → (count_messages_in_period tenant since w).0 ≡ ok n
      → n
        ≡ length (
            filter
              (λ m. (m.tenant_id == tenant) && leb since m.created_at)
              (sv.messages.rows w.messages))
  unfolding count_messages_in_period
  count_messages_in_period-length tenant since w n h =
      let q : Query Message = record {
        wanted = λ m. (m.tenant_id == tenant) && leb since m.created_at;
        order = unordered;
        limit = none;
        offset = none;
      } in
      elim (Result-cases (sv.messages.select q w.messages).0) [
        | inr (x, failed) ↦ absurd (ground (arith, failed, h))
        | inl (found, given) ↦
            let (_, _, all) = sv.messages.select_found q w.messages found given in
            let e : length found ≡ n = ok_injective (ground (arith, given, h)) in rw (← e) all
      ]
