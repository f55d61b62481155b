-- ===== src/Tests/Audit.antt =====
-- Audit entries at work.
use agentmsg.Prelude.{◌≡◌, ◌⊎◌, refl, true, ◌∷◌}
use agentmsg.Exec.{ok}
use agentmsg.Model.Audit.{AuditLog}
use agentmsg.Services.Memory.All.{memory, text}
use agentmsg.Middleware.Audit.Actions.{
  is_audit_method, audit_action, audit_resource_type, has_suffix,
}
use agentmsg.Middleware.Audit.Entries.{Handled, audit_log}
use agentmsg.Middleware.Audit.Recorded.{IsTrue, audit_log-IsTrue}
use agentmsg.Middleware.Audit.Resources.{audit_action-route}
use agentmsg.Tests.Tokens.{one_tenant}

-- Agent 2 of tenant 3 sends a heartbeat.
abbrev heartbeat : Handled
heartbeat = record {
  method = "POST";
  full_path = "/api/v1/agents/:id/heartbeat";
  url_path = "/api/v1/agents/uu/heartbeat";
  param_id = "uu";
  status = 200;
  client_ip = "";
  user_agent = "";
  request_id = "r";
  trace_id = "t";
  tenant_id = text 3;
  agent_id = text 2;
}

audit_log-IsTrue_example :
    ((audit_log true 6 90 heartbeat one_tenant).0 ≡ ok tt)
    × ((e : AuditLog) × IsTrue one_tenant heartbeat e
        × ((memory.audit_logs.rows ((audit_log true 6 90 heartbeat one_tenant).1).audit_logs
              ≡ e ∷ memory.audit_logs.rows one_tenant.audit_logs)
            ⊎ (memory.audit_logs.rows ((audit_log true 6 90 heartbeat one_tenant).1).audit_logs
                ≡ memory.audit_logs.rows one_tenant.audit_logs)))
unfolding is_audit_method
audit_log-IsTrue_example = audit_log-IsTrue 6 90 heartbeat one_tenant refl

audit_action-route_example :
    (audit_resource_type "/api/v1/agents/:id/heartbeat" ≡ "agents")
    × (audit_action "DELETE" "/api/v1/agents/:id/heartbeat" ≡ "agents.delete")
    × (audit_action "PUT" "/api/v1/agents/:id/heartbeat" ≡ "agents.update")
    × (audit_action "PATCH" "/api/v1/agents/:id/heartbeat" ≡ "agents.update")
    × (audit_action "POST" "/api/v1/agents/:id/heartbeat" ≡ "agents.create")
unfolding has_suffix
audit_action-route_example = audit_action-route "a" "gents" "/:id/heartbeat" refl refl
