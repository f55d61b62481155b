-- ===== src/Middleware/RateLimit.antt =====
-- `Middleware.RateLimit` (internal/middleware/middleware.go).

pub mod Counts
pub mod Window
use Prim.Native.String.{◌++◌ as str_append}
use agentmsg.Prelude.{
  ℕ, ◌-◌, ◌*◌, ◌/◌, Bool, true, false, not, ◌||◌, Option, none, some, String, ltb, str_eq, ◌==◌,
  if◌then◌else◌,
}
use agentmsg.Exec.{Result, ok, err, Exec, pure, attempt, ignore, when, ◌>>=◌, ◌>>◌}
use agentmsg.Model.Scalars.{Time}
use agentmsg.Services.Redis.{second}
use agentmsg.Services.World.{Services, World}
use agentmsg.Repository.Keys
use agentmsg.Middleware.{Middleware}

-- What the handler reads from the context: `agent_id`, `tenant_id` and `FullPath()`.
pub record Request : Type 0 where
  pub agent_id : String
  pub tenant_id : String
  pub full_path : String

-- A request goes on, with the headers for the limit and what remains of it where it was counted; or
-- it is answered with status 429 and the seconds of `Retry-After`.
pub data Limited : Type 0 where
  passed : Option (ℕ × ℕ) → Limited
  rejected : ℕ → Limited

-- `int(m.rateLimitWindow.Seconds())`, and 60 for 0.
unfoldable pub limit_seconds : Middleware → ℕ
limit_seconds m = if m.rate_limit_window / second == 0 then 60 else m.rate_limit_window / second

-- `time.Now().Unix() / int64(windowSeconds)`
unfoldable pub slot : Middleware → Time → ℕ
slot m now = now / second / limit_seconds m

-- `strconv.FormatInt` is the argument `decimal`.
unfoldable pub limit_key : (ℕ → String) → Middleware → Request → Time → String
limit_key decimal m rq now = str_append "ratelimit:" (
    str_append rq.tenant_id (
      str_append ":" (
        str_append rq.agent_id
          (str_append ":" (str_append rq.full_path (str_append ":" (decimal (slot m now))))))))

-- What is answered when the counter has reached `count`.
unfoldable pub judge : Middleware → ℕ → Limited
judge m count =
    if ltb m.rate_limit_requests count
    then Limited.rejected (limit_seconds m)
    else Limited.passed (some (m.rate_limit_requests, m.rate_limit_requests - count))

module _ ⦃sv : Services⦄ (decimal : ℕ → String) (m : Middleware) where
  unfoldable pub count_request : Request → Time → Exec (World sv) Limited
  count_request rq now = do
    counted ← attempt (Keys.incr (limit_key decimal m rq now) now)
    elim counted [
      | err _ ↦ pure (Limited.passed none)
      | ok n ↦
          when (n == 1)
            (ignore (Keys.expire_counter (limit_key decimal m rq now) (limit_seconds m) now))
          >> pure (judge m n)
    ]

  unfoldable pub rate_limit : Request → Time → Exec (World sv) Limited
  rate_limit rq now =
      if not m.redis || (str_eq rq.agent_id "" || str_eq rq.tenant_id "")
      then pure (Limited.passed none)
      else count_request rq now
