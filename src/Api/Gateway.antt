-- ===== src/Api/Gateway.antt =====
-- The handlers under /api/v1 and what stands before and after each of them: `setupRoutes` of
-- internal/api/handler.go.
pub mod Guarded
use agentmsg.Prelude.{ℕ, String}
use agentmsg.Exec.{Exec, pure, ◌>>=◌, ◌>>◌}
use agentmsg.Model.Scalars.{Uuid, Time, Bytes}
use agentmsg.Services.World.{Services, World}
use agentmsg.Service.Tokens.{TokenCodec}
use agentmsg.Middleware.{Middleware}
use agentmsg.Middleware.Authenticate.{Credentials, Identity, authenticate}
use agentmsg.Middleware.RateLimit.{Limited, rate_limit}
use agentmsg.Middleware.Audit.Entries.{Handled, audit_log}

pub record Arrived : Type 0 where
  pub credentials : Credentials
  pub full_path : String
  pub param_id : String
  pub client_ip : String
  pub user_agent : String
  pub request_id : String
  pub trace_id : String

-- What a request under /api/v1 is answered: by a middleware that aborts, or by its handler.
pub data Served (A : Type 0) : Type 0 where
  denied : ℕ → String → Served A
  limited : ℕ → Served A
  handled : A → Served A

abbrev pub handled_request : Arrived → String → String → ℕ → Handled
handled_request rq agent tenant status = record {
  method = rq.credentials.method;
  full_path = rq.full_path;
  url_path = rq.credentials.path;
  param_id = rq.param_id;
  status = status;
  client_ip = rq.client_ip;
  user_agent = rq.user_agent;
  request_id = rq.request_id;
  trace_id = rq.trace_id;
  tenant_id = tenant;
  agent_id = agent;
}

-- `handler` is any of the handlers, with the agent and the tenant of the context, and `status` the
-- status of its answer; `at` is the time when each of the middlewares asks for it.
module _ ⦃sv : Services⦄ (m : Middleware) (codec : TokenCodec sv.uuids) (secret : Bytes)
    (decimal : ℕ → String) {A : Type 0} (status : A → ℕ)
    (handler : String → String → Exec (World sv) A) where
  unfoldable pub serve_identified : Arrived → Uuid → Time → Identity → Exec (World sv) (Served A)
  serve_identified rq id at (Identity.denied code text) = pure (Served.denied code text)
  serve_identified rq id at (Identity.granted agent tenant) = do
    limit ←
        rate_limit decimal m
          (record { agent_id = agent; tenant_id = tenant; full_path = rq.full_path }) at
    elim limit [
      | Limited.rejected n ↦ pure (Served.limited n)
      | Limited.passed _ ↦ do
        answer ← handler agent tenant
        audit_log (m.db) id at (handled_request rq agent tenant (status answer))
        pure (Served.handled answer)
    ]

  -- `now` is the time in seconds at which the token is looked at.
  unfoldable pub serve : Arrived → Uuid → ℕ → Time → Exec (World sv) (Served A)
  serve rq id now at = authenticate m codec secret now rq.credentials >>= serve_identified rq id at
