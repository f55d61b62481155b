-- ===== src/Middleware/Audit/Entries.antt =====
-- `AuditLog` of internal/middleware/middleware.go, after the handler has run.
use agentmsg.Prelude.{ℕ, Bool, not, ◌||◌, none, some, String, [], ◌∷◌, ◌++◌, str_eq, if◌then◌else◌}
use agentmsg.Exec.{Exec, pure, ignore, ◌>>=◌}
use agentmsg.Model.Scalars.{Uuid, Time}
use agentmsg.Model.Audit.{AuditValue, AuditMetadata, AuditLog}
use agentmsg.Services.World.{Services, World}
use agentmsg.Repository.AuditLogs.{create_audit_log}
use agentmsg.Middleware.Audit.{Reference, resolve_audit_tenant_id, resolve_audit_agent_id}
use agentmsg.Middleware.Audit.Actions.{is_audit_method, audit_action, audit_resource_type}

-- What gin knows of a request and its answer; a text that is not set is empty.
pub record Handled : Type 0 where
  pub method : String
  pub full_path : String
  pub url_path : String
  pub param_id : String
  pub status : ℕ
  pub client_ip : String
  pub user_agent : String
  pub request_id : String
  pub trace_id : String
  pub tenant_id : String
  pub agent_id : String

abbrev pub route_path : Handled → String
route_path rq = if str_eq rq.full_path "" then rq.url_path else rq.full_path

-- `metadata[key] = claimed`
abbrev pub claim_of : String → Reference → AuditMetadata
claim_of key r = elim (r.claimed) [ none ↦ [] | some c ↦ (key, AuditValue.text c) ∷ [] ]

unfoldable pub entry_of : Uuid → Time → Handled → Reference → Reference → AuditLog
entry_of id now rq tenant agent = record {
  id = id;
  tenant_id = tenant.id;
  agent_id = agent.id;
  request_id = rq.request_id;
  trace_id = rq.trace_id;
  action = audit_action rq.method (route_path rq);
  resource_type = audit_resource_type (route_path rq);
  resource_id = rq.param_id;
  method = rq.method;
  path = rq.url_path;
  status_code = rq.status;
  client_ip = rq.client_ip;
  user_agent = rq.user_agent;
  metadata =
      ("route", AuditValue.text (route_path rq))
        ∷ ("status", AuditValue.number rq.status)
        ∷ claim_of "claimedTenantID" tenant
      ++ claim_of "claimedAgentID" agent;
  created_at = now;
}

-- `db` says whether there is a database. An entry that cannot be stored is only logged.
module _ ⦃sv : Services⦄ where
  unfoldable pub store_entry : Uuid → Time → Handled → Exec (World sv) (Unit {0})
  store_entry id now rq = do
    tenant ← resolve_audit_tenant_id rq.tenant_id
    agent ← resolve_audit_agent_id rq.agent_id
    ignore (create_audit_log (entry_of id now rq tenant agent))

  unfoldable pub audit_log : (db : Bool) → Uuid → Time → Handled → Exec (World sv) (Unit {0})
  audit_log db id now rq =
      if not db || not (is_audit_method rq.method) then pure tt else store_entry id now rq
