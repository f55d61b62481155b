-- ===== src/Service/Billing/Quota.antt =====
-- What billing reads with `SELECT *` from tables that have more columns than the records.
use agentmsg.Prelude.{
  ◌≡◌, inl, inr, refl, false, Option, String, List, In, any, str_eq, ◌==◌, arith,
}
use agentmsg.Exec.{is_ok, Result-cases}
use agentmsg.Model.Scalars.{Uuid, Time}
use agentmsg.Services.World.{Services, World}
use agentmsg.Repository.Statements.{get_tenant}
use agentmsg.Service.Billing.{Calendar, check_quota, get_pricing_plans}
use agentmsg.Repository.Billing.{
  tenant_columns, tenant_fields, plan_columns, plan_fields, get_tenant_by_id, get_tenant_or_error,
  list_active_plans,
}
use agentmsg.Repository.Billing.Scanned.{ReportsMissing, scanned_unfit}

created_at_column : In "created_at" tenant_columns
created_at_column = inr (inr (inr (inr (inr (inr (inr (inr (inr (inr (inr (inl refl)))))))))))

features_column : In "features" plan_columns
features_column = inr (inr (inr (inr (inr (inr (inr (inl refl)))))))

created_at_absent : any (str_eq "created_at") tenant_fields ≡ false
created_at_absent = refl

features_absent : any (str_eq "features") plan_fields ≡ false
features_absent = refl

module _ ⦃sv : Services⦄ (missing : List String → List String → Option String)
    (reports : ReportsMissing missing) where
  -- Where sqlx reports a column that no field takes, CheckQuota and GetPricingPlans return an error,
  -- whatever the tables hold and whatever the database does.
  pub billing_unreadable :
      (cal : Calendar) (tenant : Uuid) (now at_end : Time) (w : World sv)
      → (is_ok (check_quota missing cal tenant now at_end w).0 ≡ false)
        × (is_ok (get_pricing_plans missing w).0 ≡ false)
  unfolding check_quota get_tenant_or_error get_pricing_plans get_tenant_by_id list_active_plans
  billing_unreadable cal tenant now at_end w =
      let no_tenant : is_ok (get_tenant_by_id missing tenant w).0 ≡ false =
        (scanned_unfit missing tenant_columns tenant_fields "created_at"
          (get_tenant (λ t. t.id == tenant)) w reports created_at_column created_at_absent).0 in
      let no_plans : is_ok (list_active_plans missing w).0 ≡ false =
        (scanned_unfit missing plan_columns plan_fields "features" _ w reports features_column
          features_absent).0 in
      elim (Result-cases (get_tenant_by_id missing tenant w).0) [
        | inl (t, given) ↦ absurd (ground (arith, given, no_tenant))
        | inr (x, failed) ↦ (ground (arith, failed), no_plans)
      ]
