-- ===== src/Service/Billing/Usage.antt =====
-- The usage that `BillingService.GetUsageStats` reports.
use agentmsg.Prelude.{◌≡◌, refl, inl, inr, length, filter, ◌==◌, ◌&&◌, leb, arith}
use agentmsg.Exec.{ok, ok_injective, Result-cases}
use agentmsg.Model.Scalars.{Uuid, Time}
use agentmsg.Model.Tenant.{TenantUsage}
use agentmsg.Services.World.{Services, World}
use agentmsg.Repository.Billing.{count_messages_in_period}
use agentmsg.Repository.Billing.Periods.{count_messages_in_period-length}
use agentmsg.Service.Billing.{Calendar, get_usage_stats, billing_period_start, billing_period_end}

module _ ⦃sv : Services⦄ (cal : Calendar) where
  -- The usage that is reported for a tenant is the number of messages in the table that are the
  -- tenant's and were created since the first day of the month, each counted once and never another
  -- tenant's; the calls of the API are reported as the same number.
  pub get_usage_stats-length :
      (tenant : Uuid) (now at_end : Time) (w : World sv) (usage : TenantUsage)
      → (get_usage_stats cal tenant now at_end w).0 ≡ ok usage
      → (usage.message_count
          ≡ length (
              filter
                (λ m. (m.tenant_id == tenant) && leb (billing_period_start cal now) m.created_at)
                (sv.messages.rows w.messages)))
        × (usage.api_calls ≡ usage.message_count)
  unfolding get_usage_stats
  get_usage_stats-length tenant now at_end w usage h =
      let start : Time = billing_period_start cal now in
      elim (Result-cases (count_messages_in_period tenant start w).0) [
        | inr (x, failed) ↦ absurd (ground (arith, failed, h))
        | inl (n, given) ↦
            let counted : TenantUsage = record {
              message_count = n;
              bandwidth_bytes = 0;
              storage_bytes = 0;
              api_calls = n;
              reset_at = cal.unix (billing_period_end cal at_end);
            } in
            let e : counted ≡ usage = ok_injective (ground (arith, given, h)) in
            rw (← e) (count_messages_in_period-length tenant start w n given, refl)
      ]
