-- ===== src/Repository/Identities.antt =====
-- `TenantExists` and `AgentExists` of `PostgresDB` (internal/repository/postgres.go).
use agentmsg.Prelude.{Bool, ◌&&◌, is_some, ◌==◌}
use agentmsg.Exec.{Exec, pure, ◌>>=◌}
use agentmsg.Model.Scalars.{Uuid}
use agentmsg.Services.World.{Services, World}
use agentmsg.Repository.Agents.{is_live}
use agentmsg.Repository.Statements.{get_tenant, get_agent}

module _ ⦃sv : Services⦄ where
  unfoldable pub tenant_exists : Uuid → Exec (World sv) Bool
  tenant_exists id = get_tenant (λ t. t.id == id) >>= λ found. pure (is_some found)

  -- The tenant of the agent is not asked for.
  unfoldable pub agent_exists : Uuid → Exec (World sv) Bool
  agent_exists id = get_agent (λ r. (r.id == id) && is_live r) >>= λ found. pure (is_some found)
