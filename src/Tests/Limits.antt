-- ===== src/Tests/Limits.antt =====
-- Rate limits and the engine's lifecycle at work.
use agentmsg.Prelude.{ℕ, ◌≡◌, ◌≤◌, refl, true, false, negsuc, pos, String, [], ◌∷◌}
use agentmsg.Services.Memory.All.{memory}
use agentmsg.Repository.Keys
use agentmsg.Middleware.{Middleware}
use agentmsg.Middleware.RateLimit.{
  Request, limit_seconds, slot, limit_key, judge, count_request, rate_limit,
}
use agentmsg.Middleware.RateLimit.Window.{
  first_pass, is_limited, verdicts, AllAnswer, rate_limit_window,
}
use agentmsg.Engine.Lifecycle.{
  EngineConfig, Lifecycle, Step, Reach, with_defaults, new_lifecycle, rounds, start,
}
use agentmsg.Engine.Lifecycle.Staffed.{IsStaffed, Reach-IsStaffed_new}
use agentmsg.Tests.Fixtures.{empty_world}

-- Two requests in a minute.
abbrev limiter : Middleware
limiter = record {
  redis = true;
  db = true;
  auth = true;
  rate_limit_requests = 2;
  rate_limit_window = 60_000_000_000;
}

abbrev request : Request
request = record { agent_id = "a"; tenant_id = "t"; full_path = "/p" }

abbrev decimal : ℕ → String
decimal _ = "0"

rate_limit_window_example :
    verdicts decimal limiter request (1 ∷ 5 ∷ 9_000_000_000 ∷ []) empty_world ≡ first_pass 2 3
unfolding is_limited slot limit_seconds AllAnswer rate_limit count_request limit_key judge Keys.incr
    Keys.expire_counter
rate_limit_window_example =
    rate_limit_window decimal limiter request 1 (1 ∷ 5 ∷ 9_000_000_000 ∷ []) empty_world refl
      (refl, (refl, (refl, tt))) refl (refl, (refl, (refl, tt)))

-- No worker count is configured.
abbrev config : EngineConfig
config = record { worker_count = pos 0; flush_interval = negsuc 0; max_retries = pos 3 }

-- Its parent context is cancelled, and one of its two goroutines has returned.
abbrev half_stopped : Lifecycle
half_stopped = record { running = true; done = true; goroutines = 1; stopping = false }

half_stopped_reached : Reach true (with_defaults config) new_lifecycle half_stopped
unfolding start with_defaults
half_stopped_reached =
    let started : Lifecycle = (start true (with_defaults config) false new_lifecycle).1 in
    let cut : Lifecycle = record started { done = true } in
    Reach.next
      (Reach.next (Reach.next Reach.here (Step.starts new_lifecycle false))
        (Step.cancelled started))
      (Step.returns cut 1 refl refl)

Reach-IsStaffed_new_example :
    IsStaffed (with_defaults config) half_stopped × (1 ≤ rounds (with_defaults config).worker_count)
Reach-IsStaffed_new_example = Reach-IsStaffed_new true config half_stopped half_stopped_reached
