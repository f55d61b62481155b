-- ===== src/Middleware/Audit.antt =====
-- The references of an audit entry: `resolveAuditTenantID` and `resolveAuditAgentID` of
-- internal/middleware/middleware.go. The children have the entries.
pub mod Actions
pub mod Entries
pub mod Recorded
pub mod Resources
pub mod Referenced
use agentmsg.Prelude.{Bool, true, false, Option, none, some, String, str_eq, if◌then◌else◌}
use agentmsg.Exec.{ok, err, Exec, pure, attempt, ◌>>=◌}
use agentmsg.Model.Scalars.{Uuid}
use agentmsg.Services.World.{Services, World}
use agentmsg.Repository.Identities.{tenant_exists, agent_exists}

-- What is returned, and what is put into the metadata of the entry.
pub record Reference : Type 0 where
  pub id : Option Uuid
  pub claimed : Option String

abbrev pub unresolved : String → Reference
unresolved text = record { id = none; claimed = some text }

module _ ⦃sv : Services⦄ where
  unfoldable pub resolve_parsed : (Uuid → Exec (World sv) Bool) → Uuid → Exec (World sv) Reference
  resolve_parsed exists id = do
    found ← attempt (exists id)
    elim found [
      | err _ ↦ pure (unresolved (sv.uuids.text id))
      | ok false ↦ pure (unresolved (sv.uuids.text id))
      | ok true ↦ pure (record { id = some id; claimed = none })
    ]

  -- `raw` is the text in the context of the request, which is empty if there is none.
  unfoldable pub resolve_audit_reference :
      (Uuid → Exec (World sv) Bool) → String → Exec (World sv) Reference
  resolve_audit_reference exists raw =
      if str_eq raw ""
      then pure (record { id = none; claimed = none })
      else elim (sv.uuids.parse raw) [
        | none ↦ pure (unresolved raw)
        | some id ↦ resolve_parsed exists id
      ]

  unfoldable pub resolve_audit_tenant_id : String → Exec (World sv) Reference
  resolve_audit_tenant_id raw = resolve_audit_reference tenant_exists raw

  unfoldable pub resolve_audit_agent_id : String → Exec (World sv) Reference
  resolve_audit_agent_id raw = resolve_audit_reference agent_exists raw
