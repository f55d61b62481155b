-- ===== src/Sdk/Client/Agents.antt =====
-- The methods of `Client` on the connection and on agents.
use Prim.Native.String.{◌++◌ as str_append}
use agentmsg.Prelude.{Bool, none, String, List, [], map, ◌==◌, if◌then◌else◌}
use agentmsg.Model.Scalars.{Uuid, uuid_nil, zero_time}
use agentmsg.Model.Json.{Json, end, member}
use agentmsg.Model.Agent.{Agent, AgentStatus, Capability}
use agentmsg.Sdk.Http.{ClientError, ok, err, Call, give, Response, Transport, ◌>>=◌, ◌>>◌}
use agentmsg.Sdk.Messages.{Encoder, items}
use agentmsg.Sdk.Client.{ClientConfig, Decoder, request, request_with, expect, decode}

-- `var agent Agent`
abbrev zero_agent : Agent
zero_agent = record {
  id = uuid_nil;
  tenant_id = uuid_nil;
  did = "";
  public_key = "";
  name = "";
  version = "";
  provider = "";
  tier = "";
  capabilities = [];
  endpoints = [];
  trust_level = 0;
  verified_at = none;
  status = AgentStatus.unset;
  last_heartbeat = zero_time;
  created_at = zero_time;
  updated_at = zero_time;
}

module _ (t : Transport) (c : ClientConfig) (e : Encoder) (d : Decoder) where
  -- `if resp.StatusCode == http.StatusNotFound { return nil, missing }`
  abbrev unless_missing : ClientError → Response → Call t.Store (Unit {0})
  unless_missing missing resp = if resp.status == 404 then give (err missing) else give (ok tt)

  abbrev healthy : Response → Call t.Store Bool
  healthy resp =
      if resp.status == 200
      then give (ok c.on_connect)
      else give (
          err (
            ClientError.other
              (str_append "health check failed with status: " (d.decimal resp.status))))

  -- The result says whether `OnConnect` is called.
  unfoldable pub connect : Call t.Store Bool
  connect = do
    resp ← t.round_trip (record (request c "GET" "/health") { authorization = "" })
    healthy resp

  -- The result says whether `OnDisconnect` is called.
  unfoldable pub disconnect : Call t.Store Bool
  disconnect = give (ok c.on_disconnect)

  -- The result is what the agent becomes.
  unfoldable pub register_agent : Agent → Call t.Store Agent
  register_agent a = do
    resp ← t.round_trip (request_with c "POST" "/api/v1/agents" (e.agent a))
    expect d 201 resp
    decode (d.agent a) resp

  unfoldable pub get_agent : Uuid → Call t.Store Agent
  get_agent id = do
    resp ← t.round_trip (request c "GET" (str_append "/api/v1/agents/" (e.uuid id)))
    unless_missing ClientError.agent_not_found resp
    expect d 200 resp
    decode (d.agent zero_agent) resp

  unfoldable pub update_agent_capabilities : List Capability → Call t.Store Agent
  update_agent_capabilities capabilities = do
    resp ← t.round_trip (
        request_with c "PUT" (str_append "/api/v1/agents/" (e.uuid c.agent_id))
          (Json.object (member "capabilities" (e.capabilities capabilities) end)))
    expect d 200 resp
    decode (d.agent zero_agent) resp

  unfoldable pub list_agents : Call t.Store (List Agent)
  list_agents = do
    resp ← t.round_trip (request c "GET" "/api/v1/agents")
    expect d 200 resp
    decode d.agents resp

  unfoldable pub query_capabilities : List String → Call t.Store (List Agent)
  query_capabilities capabilities = do
    resp ← t.round_trip (
        request_with c "POST" "/api/v1/discovery/query" (
          Json.object
            (member "capabilities" (Json.array (items (map (λ s. Json.text s) capabilities))) end)))
    expect d 200 resp
    decode d.agents_member resp

  unfoldable pub heartbeat : Call t.Store (Unit {0})
  heartbeat = do
    resp ← t.round_trip (
        request c "POST"
          (str_append "/api/v1/agents/" (str_append (e.uuid c.agent_id) "/heartbeat")))
    expect d 200 resp
