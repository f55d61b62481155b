-- ===== src/Tests/Agents.antt =====
-- The agent service at work.
use agentmsg.Prelude.{◌≡◌, refl, true, none, some, [], ◌∷◌, All}
use agentmsg.Model.Agent.{Agent}
use agentmsg.Services.World.{AgentRow, World}
use agentmsg.Services.Memory.All.{memory}
use agentmsg.Repository.Agents.{is_of_tenant, with_status}
use agentmsg.Repository.Agents
use agentmsg.Service.Agents.{
  AgentService, matches, filter_matches, update_for_tenant, delete_for_tenant, heartbeat_for_tenant,
  query_by_capabilities,
}
use agentmsg.Service.Agents.Tenancy.{others, rows_of, for_tenant-others}
use agentmsg.Service.Agents.Discovery.{IsFound, Offers, query_by_capabilities-Offers}
use agentmsg.Tests.Fixtures.{translator, empty_world}

abbrev service : AgentService
service = record { repo = true; redis = true }

abbrev row_of : Agent → AgentRow
row_of a = record { agent = a; deleted_at = none }

-- The translator, and an agent of another tenant.
abbrev two_agents : World memory
two_agents = record empty_world {
  agents = record {
    held = row_of translator ∷ row_of (record translator { id = 8; tenant_id = 2 }) ∷ [];
    faults = [];
  };
}

for_tenant-others_example :
    (others 1 (rows_of (update_for_tenant service 50 1 (some translator) two_agents).1)
      ≡ others 1 (rows_of two_agents))
    × (others 1 (rows_of (delete_for_tenant service 50 1 7 two_agents).1)
        ≡ others 1 (rows_of two_agents))
    × (others 1 (rows_of (heartbeat_for_tenant service 50 1 7 two_agents).1)
        ≡ others 1 (rows_of two_agents))
for_tenant-others_example = for_tenant-others service 50 1 7 (some translator) two_agents

query_by_capabilities-Offers_example :
    All
      (λ a. IsFound 1 (rows_of two_agents) a × Offers (λ s. s) ("translation" ∷ []) a)
      (translator ∷ [])
unfolding query_by_capabilities Agents.query_by_capabilities filter_matches matches
query_by_capabilities-Offers_example =
    query_by_capabilities-Offers service (λ s. s) 1 "translation" [] two_agents (translator ∷ [])
      refl
