-- ===== src/Middleware.antt =====
-- internal/middleware/middleware.go: what a request passes before its handler.
pub mod Audit
pub mod Authenticate
pub mod RateLimit
use agentmsg.Prelude.{ℕ, zero, suc, ◌*◌, ℤ, pos, negsuc, Bool}
use agentmsg.Model.Scalars.{Time}
use agentmsg.Services.Redis.{second}

-- `redis`, `db` and `auth` say whether the pointer is set.
pub record Middleware : Type 0 where
  pub redis : Bool
  pub db : Bool
  pub auth : Bool
  pub rate_limit_requests : ℕ
  pub rate_limit_window : Time

abbrev positive_or : ℕ → ℤ → ℕ
positive_or n (pos zero) = n
positive_or n (pos (suc k)) = suc k
positive_or n (negsuc k) = n

-- `NewMiddleware`
unfoldable pub new_middleware : Bool → Bool → Bool → ℤ → ℤ → Middleware
new_middleware redis db auth requests window = record {
  redis = redis;
  db = db;
  auth = auth;
  rate_limit_requests = positive_or 600 requests;
  rate_limit_window = positive_or (60 * second) window;
}
