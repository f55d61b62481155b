-- ===== src/Repository/Agents.antt =====
-- `AgentRepository` of internal/repository/postgres.go. `now` is `NOW()` of a statement.
use agentmsg.Prelude.{
  pos, String, Bool, not, ◌&&◌, Option, none, some, List, map, is_some, str_eq, ◌==◌,
}
use agentmsg.Exec.{ok, Exec, ◌>>=◌}
use agentmsg.Model.Scalars.{Uuid, Time, zero_time}
use agentmsg.Model.Agent.{Agent, AgentStatus, agent_status_text, is_online}
use agentmsg.Services.Table.{descending}
use agentmsg.Services.World.{AgentRow, Services, World}
use agentmsg.Repository.Statements.{
  get_agent, select_agents, insert_agent, update_agents, only_error, rows_affected,
}

-- `deleted_at IS NULL`
abbrev pub is_live : AgentRow → Bool
is_live r = not (is_some r.deleted_at)

-- The row that the INSERT makes; the columns that it does not list have their defaults.
unfoldable pub inserted_row : Time → Agent → AgentRow
inserted_row now a = record {
  agent = record a {
    trust_level = 1;
    verified_at = none;
    last_heartbeat = zero_time;
    created_at = now;
    updated_at = now;
  };
  deleted_at = none;
}

-- The `SET` clause of `Update` and `UpdateForTenant`.
unfoldable pub with_update : Agent → AgentRow → AgentRow
with_update a r = record r {
  agent = record (r.agent) {
    name = a.name;
    version = a.version;
    capabilities = a.capabilities;
    endpoints = a.endpoints;
    status = a.status;
    last_heartbeat = a.last_heartbeat;
  };
}

-- `SET deleted_at = NOW()`
unfoldable pub with_deletion : Time → AgentRow → AgentRow
with_deletion now r = record r { deleted_at = some now }

-- `SET status = $2, last_heartbeat = NOW()`
unfoldable pub with_status : AgentStatus → Time → AgentRow → AgentRow
with_status status now r = record r {
  agent = record (r.agent) { status = status; last_heartbeat = now };
}

-- `id = $1 AND tenant_id = $2 AND deleted_at IS NULL`
unfoldable pub is_of_tenant : Uuid → Uuid → AgentRow → Bool
is_of_tenant tenant id r = (r.id == id) && ((r.tenant_id == tenant) && is_live r)

-- The columns of `agentSelectColumns`, without `deleted_at`.
abbrev pub the_agent : Option AgentRow → Option Agent
the_agent none = none
the_agent (some r) = some r.agent

module _ ⦃sv : Services⦄ where
  unfoldable pub create : Time → Agent → Exec (World sv) (Unit {0})
  unfolding inserted_row
  create now a = insert_agent (inserted_row now a)

  unfoldable pub get_by_id : Uuid → Exec (World sv) (Option Agent)
  get_by_id id = do
    found ← get_agent (λ r. (r.id == id) && is_live r)
    λ w. (ok (the_agent found), w)

  unfoldable pub get_by_id_for_tenant : Uuid → Uuid → Exec (World sv) (Option Agent)
  unfolding is_of_tenant
  get_by_id_for_tenant tenant id = do
    found ← get_agent (is_of_tenant tenant id)
    λ w. (ok (the_agent found), w)

  unfoldable pub get_by_did : String → Exec (World sv) (Option Agent)
  get_by_did did = do
    found ← get_agent (λ r. str_eq r.did did && is_live r)
    λ w. (ok (the_agent found), w)

  unfoldable pub update : Agent → Exec (World sv) (Unit {0})
  unfolding with_update
  update a = only_error (update_agents (λ r. r.id == a.id) (with_update a))

  unfoldable pub update_for_tenant : Uuid → Agent → Exec (World sv) Bool
  unfolding with_update is_of_tenant rows_affected
  update_for_tenant tenant a =
      rows_affected (update_agents (is_of_tenant tenant a.id) (with_update a))

  unfoldable pub delete : Time → Uuid → Exec (World sv) (Unit {0})
  unfolding with_deletion
  delete now id = only_error (update_agents (λ r. r.id == id) (with_deletion now))

  unfoldable pub delete_for_tenant : Time → Uuid → Uuid → Exec (World sv) Bool
  unfolding with_deletion is_of_tenant rows_affected
  delete_for_tenant now tenant id =
      rows_affected (update_agents (is_of_tenant tenant id) (with_deletion now))

  unfoldable pub list_by_tenant : Uuid → Exec (World sv) (List Agent)
  list_by_tenant tenant = do
    rows ← select_agents (record {
      wanted = λ r. (r.tenant_id == tenant) && is_live r;
      order = descending (λ r. r.created_at);
      limit = none;
      offset = none;
    })
    λ w. (ok (map (λ r. r.agent) rows), w)

  unfoldable pub update_status : Time → Uuid → AgentStatus → Exec (World sv) (Unit {0})
  unfolding with_status
  update_status now id status =
      only_error (update_agents (λ r. r.id == id) (with_status status now))

  unfoldable pub update_status_for_tenant : Time → Uuid → Uuid → AgentStatus → Exec (World sv) Bool
  unfolding with_status is_of_tenant rows_affected
  update_status_for_tenant now tenant id status =
      rows_affected (update_agents (is_of_tenant tenant id) (with_status status now))

  -- The capabilities are not in the statement: the service filters by them.
  unfoldable pub query_by_capabilities : Uuid → List String → Exec (World sv) (List Agent)
  query_by_capabilities tenant _ = do
    rows ← select_agents (record {
      wanted = λ r. (r.tenant_id == tenant) && (is_live r && is_online r.status);
      order = descending (λ r. r.created_at);
      limit = some (pos 50);
      offset = none;
    })
    λ w. (ok (map (λ r. r.agent) rows), w)

  unfoldable pub list_all : Exec (World sv) (List Agent)
  list_all = do
    rows ← select_agents (record {
      wanted = is_live;
      order = descending (λ r. r.created_at);
      limit = some (pos 1000);
      offset = none;
    })
    λ w. (ok (map (λ r. r.agent) rows), w)

  unfoldable pub get_by_status : AgentStatus → Exec (World sv) (List Agent)
  unfolding agent_status_text
  get_by_status status = do
    rows ← select_agents (record {
      wanted = λ r. str_eq (agent_status_text r.status) (agent_status_text status) && is_live r;
      order = descending (λ r. r.created_at);
      limit = none;
      offset = none;
    })
    λ w. (ok (map (λ r. r.agent) rows), w)
