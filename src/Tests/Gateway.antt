-- ===== src/Tests/Gateway.antt =====
-- Requests through the whole gateway.
use agentmsg.Prelude.{ℕ, ◌≡◌, ◌⊎◌, Option, String, [], ◌∷◌}
use agentmsg.Exec.{ok, Exec, pure, ◌>>◌}
use agentmsg.Services.World.{World}
use agentmsg.Services.Memory.All.{memory}
use agentmsg.Repository.Statements.{insert_message}
use agentmsg.Middleware.Authenticate.{authenticate}
use agentmsg.Middleware.Authenticate.Granted.{IsVouched}
use agentmsg.Middleware.RateLimit.{Limited, rate_limit}
use agentmsg.Api.Gateway.{Arrived, serve}
use agentmsg.Api.Gateway.Guarded.{untouched, serve-IsVouched}
use agentmsg.Tests.Fixtures.{hello}
use agentmsg.Tests.Tokens.{codec, gate, credentials, one_tenant}

abbrev listing : Arrived
listing = record {
  credentials = credentials;
  full_path = "/api/v1/messages";
  param_id = "";
  client_ip = "";
  user_agent = "";
  request_id = "r";
  trace_id = "t";
}

abbrev decimal : ℕ → String
decimal _ = "0"

abbrev storing : String → String → Exec (World memory) ℕ
storing _ _ = insert_message hello >> pure 202

serve-IsVouched_example :
    (untouched (serve gate codec (7 ∷ []) decimal (λ n. n) storing listing 9 5_000 50 one_tenant).1
      ≡ untouched one_tenant)
    ⊎ ((agent : String) × (tenant : String) × IsVouched gate codec
          (7 ∷ [])
          5_000
          credentials
          agent
          tenant
          one_tenant
        × ((left : Option (ℕ × ℕ)) × ((rate_limit decimal gate
                (record { agent_id = agent; tenant_id = tenant; full_path = "/api/v1/messages" })
                50
                (authenticate gate codec (7 ∷ []) 5_000 credentials one_tenant).1).0
              ≡ ok (Limited.passed left))))
serve-IsVouched_example =
    serve-IsVouched gate codec (7 ∷ []) decimal (λ n. n) storing listing 9 5_000 50 one_tenant
