-- ===== src/Api/Agents.antt =====
-- The agent handlers of internal/api/handler.go.
use agentmsg.Prelude.{Option, none, some, String, List, []}
use agentmsg.Model.Scalars.{Uuid, Time, zero_time, uuid_nil}
use agentmsg.Model.Agent.{Agent, AgentStatus, Capability}
use agentmsg.Services.World.{Services, World}
use agentmsg.Service.Agents.{
  AgentService, new_agent, register, get_by_id_for_tenant, update_for_tenant, delete_for_tenant,
  list_by_tenant, heartbeat_for_tenant,
}
use agentmsg.Api.Responses.{
  Handler, Context, respond, serve, bind_json, parse_uuid, context_uuid, ◌>>=◌,
}

-- A member that the body leaves out is empty.
pub record AgentRequest : Type 0 where
  pub did : String
  pub public_key : String
  pub name : String
  pub version : String
  pub provider : String
  pub capabilities : List Capability

-- The agent that `createAgent` passes to the service.
unfoldable pub requested_agent : Uuid → AgentRequest → Agent
requested_agent tenant rq = record {
  id = uuid_nil;
  tenant_id = tenant;
  did = rq.did;
  public_key = rq.public_key;
  name = rq.name;
  version = rq.version;
  provider = rq.provider;
  tier = "";
  capabilities = rq.capabilities;
  endpoints = [];
  trust_level = 0;
  verified_at = none;
  status = AgentStatus.unset;
  last_heartbeat = zero_time;
  created_at = zero_time;
  updated_at = zero_time;
}

-- What `updateAgent` changes.
unfoldable pub with_request : AgentRequest → Agent → Agent
with_request rq a = record a {
  name = rq.name;
  version = rq.version;
  capabilities = rq.capabilities;
}

module _ ⦃sv : Services⦄ (s : AgentService) where
  -- Answers with status 201 and the agent as the service has filled it in.
  unfoldable pub create_agent :
      Time → Uuid → Context → Option AgentRequest → Handler (World sv) Agent
  create_agent now fresh c body = do
    rq ← bind_json body
    tenant ← context_uuid c.tenant_id
    _ ← serve "agent_not_found" (register s now fresh (some (requested_agent tenant rq)))
    respond (new_agent now fresh (requested_agent tenant rq))

  -- The others answer with status 200, and `delete_agent` with 204.
  unfoldable pub get_agent : Context → String → Handler (World sv) Agent
  get_agent c parameter = do
    id ← parse_uuid parameter
    tenant ← context_uuid c.tenant_id
    serve "agent_not_found" (get_by_id_for_tenant s tenant id)

  unfoldable pub list_agents : Context → Handler (World sv) (List Agent)
  list_agents c = do
    tenant ← context_uuid c.tenant_id
    serve "agent_not_found" (list_by_tenant s tenant)

  unfoldable pub update_agent :
      Time → Context → String → Option AgentRequest → Handler (World sv) Agent
  update_agent now c parameter body = do
    id ← parse_uuid parameter
    rq ← bind_json body
    tenant ← context_uuid c.tenant_id
    a ← serve "agent_not_found" (get_by_id_for_tenant s tenant id)
    _ ← serve "agent_not_found" (update_for_tenant s now tenant (some (with_request rq a)))
    respond (record (with_request rq a) { updated_at = now })

  unfoldable pub delete_agent : Time → Context → String → Handler (World sv) (Unit {0})
  delete_agent now c parameter = do
    id ← parse_uuid parameter
    tenant ← context_uuid c.tenant_id
    serve "agent_not_found" (delete_for_tenant s now tenant id)

  unfoldable pub heartbeat : Time → Context → String → Handler (World sv) (Unit {0})
  heartbeat now c parameter = do
    id ← parse_uuid parameter
    tenant ← context_uuid c.tenant_id
    serve "agent_not_found" (heartbeat_for_tenant s now tenant id)
