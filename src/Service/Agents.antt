-- ===== src/Service/Agents.antt =====
-- `AgentService` (internal/service/service.go and service_ext.go). A nil receiver acts like one
-- whose pointers are both nil. `now` is the time of the call.
pub mod Discovery
pub mod Tenancy
use agentmsg.Prelude.{
  ℕ, suc, ◌+◌, ◌/◌, Bool, true, false, not, ◌&&◌, any, Option, none, some, String, List, [], ◌∷◌,
  filter, length, str_eq, if◌then◌else◌,
}
use agentmsg.Exec.{Error, Result, ok, err, Exec, pure, raise, attempt, reject_if, ◌>>=◌, ◌>>◌}
use agentmsg.Model.Scalars.{Uuid, Time}
use agentmsg.Model.Agent.{Agent, AgentStatus, AgentStats, Capability}
use agentmsg.Services.Redis.{second}
use agentmsg.Services.World.{Services, World}
use agentmsg.Engine.Channels.{publish}
use agentmsg.Repository.Agents

-- Which pointers are set.
pub record AgentService : Type 0 where
  pub repo : Bool
  pub redis : Bool

-- The agent that `Register` stores. `fresh` is the result of `uuid.New()`.
unfoldable pub new_agent : Time → Uuid → Agent → Agent
new_agent now fresh a = record a {
  id = fresh;
  status = AgentStatus.online;
  created_at = now;
  updated_at = now;
}

-- `if repository.IsUniqueViolation(err) { return ErrAgentAlreadyExists }`
unfoldable pub register_error : Error → Error
register_error Error.unique_violation = Error.agent_already_exists
register_error e = e

-- Has the agent one of the capabilities, in any case of letters. `strings.ToLower` is `lower`.
unfoldable pub matches : (String → String) → List String → Agent → Bool
matches lower capabilities a =
    any (λ (c : Capability). any (λ r. str_eq (lower r) (lower c.kind)) capabilities) a.capabilities

-- Without capabilities to look for, all agents are kept.
unfoldable pub filter_matches : (String → String) → List String → List Agent → List Agent
unfolding matches
filter_matches lower [] agents = agents
filter_matches lower (c ∷ cs) agents = filter (matches lower (c ∷ cs)) agents

-- One round of the loop of `GetStats`.
unfoldable pub tally : AgentStatus → AgentStats → AgentStats
tally AgentStatus.online s = record s { online = suc s.online }
tally AgentStatus.away s = record s { away = suc s.away }
tally AgentStatus.busy s = record s { busy = suc s.busy }
tally AgentStatus.offline s = record s { offline = suc s.offline }
tally AgentStatus.unset s = s
tally (AgentStatus.other _) s = s

unfoldable pub tally_all : List Agent → AgentStats → AgentStats
tally_all [] s = s
tally_all (a ∷ rest) s = tally_all rest (tally a.status s)

unfoldable pub stats_of : Time → List Agent → AgentStats
stats_of now agents = tally_all agents (record {
  total = length agents;
  online = 0;
  away = 0;
  busy = 0;
  offline = 0;
  timestamp = now / second;
})

module _ ⦃sv : Services⦄ where
  abbrev pub given_or : {A : Type 0} → Error → Option A → Exec (World sv) A
  given_or e none = raise e
  given_or e (some a) = pure a

  -- `if !updated { return ErrAgentNotFound }`
  abbrev pub found_row : Bool → Exec (World sv) (Unit {0})
  found_row found = reject_if (not found) Error.agent_not_found

module _ ⦃sv : Services⦄ (s : AgentService) where
  abbrev with_repo : {A : Type 0} → Exec (World sv) A → Exec (World sv) A
  with_repo m = reject_if (not s.repo) Error.service_unavailable >> m

  unfoldable pub register : Time → Uuid → Option Agent → Exec (World sv) (Unit {0})
  register now fresh given = do
    reject_if (not (s.repo && s.redis)) Error.service_unavailable
    a ← given_or Error.invalid_message given
    created ← attempt (Agents.create now (new_agent now fresh a))
    elim created [
      | ok _ ↦ publish "agents:created" (sv.uuids.text fresh)
      | err e ↦ raise (register_error e)
    ]

  unfoldable pub get_by_id : Uuid → Exec (World sv) Agent
  get_by_id id = with_repo (Agents.get_by_id id >>= given_or Error.agent_not_found)

  unfoldable pub get_by_id_for_tenant : Uuid → Uuid → Exec (World sv) Agent
  get_by_id_for_tenant tenant id =
      with_repo (Agents.get_by_id_for_tenant tenant id >>= given_or Error.agent_not_found)

  unfoldable pub update : Time → Option Agent → Exec (World sv) (Unit {0})
  update now given =
      with_repo (
        given_or Error.invalid_message given >>= λ a. Agents.update (record a { updated_at = now }))

  unfoldable pub update_for_tenant : Time → Uuid → Option Agent → Exec (World sv) (Unit {0})
  update_for_tenant now tenant given = with_repo (do
    a ← given_or Error.invalid_message given
    updated ← Agents.update_for_tenant tenant (record a { updated_at = now })
    found_row updated)

  unfoldable pub delete : Time → Uuid → Exec (World sv) (Unit {0})
  delete now id = with_repo (Agents.delete now id)

  unfoldable pub delete_for_tenant : Time → Uuid → Uuid → Exec (World sv) (Unit {0})
  delete_for_tenant now tenant id = with_repo (Agents.delete_for_tenant now tenant id >>= found_row)

  unfoldable pub list_by_tenant : Uuid → Exec (World sv) (List Agent)
  list_by_tenant tenant = with_repo (Agents.list_by_tenant tenant)

  unfoldable pub heartbeat : Time → Uuid → Exec (World sv) (Unit {0})
  heartbeat now id = with_repo (Agents.update_status now id AgentStatus.online)

  unfoldable pub heartbeat_for_tenant : Time → Uuid → Uuid → Exec (World sv) (Unit {0})
  heartbeat_for_tenant now tenant id =
      with_repo (Agents.update_status_for_tenant now tenant id AgentStatus.online >>= found_row)

  unfoldable pub update_capabilities : Time → Uuid → List Capability → Exec (World sv) (Unit {0})
  update_capabilities now id capabilities =
      get_by_id id >>= λ a. update now (some (record a { capabilities = capabilities }))

  unfoldable pub query_by_capabilities :
      (String → String) → Uuid → List String → Exec (World sv) (List Agent)
  query_by_capabilities lower tenant capabilities = with_repo (do
    agents ← Agents.query_by_capabilities tenant capabilities
    pure (filter_matches lower capabilities agents))

  unfoldable pub list_all : Exec (World sv) (List Agent)
  list_all = with_repo Agents.list_all

  unfoldable pub get_by_status : AgentStatus → Exec (World sv) (List Agent)
  get_by_status status = with_repo (Agents.get_by_status status)

  unfoldable pub get_stats : Time → Uuid → Exec (World sv) AgentStats
  get_stats now tenant = list_by_tenant tenant >>= λ agents. pure (stats_of now agents)
