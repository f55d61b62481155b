-- ===== src/Engine/Lifecycle.antt =====
-- `NewMessageEngine`, `Start` and `Stop` (internal/engine/engine.go). Between the calls, and while
-- `Stop` waits, the parent context can be cancelled and goroutines end.
pub mod Staffed
use agentmsg.Prelude.{
  ℕ, suc, ◌+◌, ℤ, pos, negsuc, ◌≡◌, Bool, true, false, at_most_zero, if◌then◌else◌,
}
use agentmsg.Exec.{Error, Done, ok, err}

-- `EngineConfig`; durations in nanoseconds.
pub record EngineConfig : Type 0 where
  pub worker_count : ℤ
  pub flush_interval : ℤ
  pub max_retries : ℤ

-- The configuration that `NewMessageEngine` keeps.
unfoldable pub with_defaults : EngineConfig → EngineConfig
with_defaults cfg = record cfg {
  worker_count = if at_most_zero cfg.worker_count then pos 1 else cfg.worker_count;
  flush_interval = if at_most_zero cfg.flush_interval then pos 100_000_000 else cfg.flush_interval;
}

-- `running`; whether the context `e.ctx` is done; how many goroutines the wait group counts; and
-- whether a call of `Stop` is waiting for them.
pub record Lifecycle : Type 0 where
  pub running : Bool
  pub done : Bool
  pub goroutines : ℕ
  pub stopping : Bool

-- What `NewMessageEngine` gives.
abbrev pub new_lifecycle : Lifecycle
new_lifecycle = record { running = false; done = false; goroutines = 0; stopping = false }

-- `int` as the argument of a loop `for i := 0; i < n; i++`.
abbrev pub rounds : ℤ → ℕ
rounds (pos n) = n
rounds (negsuc n) = 0

-- `redis` says whether the pointer is set, and `done` whether the context that is given is done, as
-- `context.WithCancel` then is too. Each worker is one goroutine, and the dead letter loop.
unfoldable pub start : Bool → EngineConfig → (done : Bool) → Lifecycle → Done × Lifecycle
start redis cfg done s =
    if redis
    then (if s.running then (ok tt, s) else (
      ok tt,
      record s {
        running = true;
        done = done;
        goroutines = s.goroutines + rounds cfg.worker_count + 1;
      },
    ))
    else (err Error.engine_dependencies, s)

-- `Stop` until `wg.Wait()`.
unfoldable pub begin_stop : Lifecycle → Lifecycle
begin_stop s = if s.running then record s { done = true; stopping = true } else s

-- `Stop` after it.
unfoldable pub end_stop : Lifecycle → Lifecycle
end_stop s = record s { running = false; stopping = false }

-- `Start` is one step, and no `Stop` begins while another waits. A goroutine returns once its context
-- is done, and `wg.Wait()` when none is left.
pub data Step (redis : Bool) (cfg : EngineConfig) : Lifecycle → Lifecycle → Type 0 where
  starts : (s : Lifecycle) (done : Bool) → Step redis cfg s (start redis cfg done s).1
  cancelled : (s : Lifecycle) → Step redis cfg s (record s { done = true })
  returns :
      (s : Lifecycle) (n : ℕ)
      → s.done ≡ true
      → s.goroutines ≡ suc n
      → Step redis cfg s (record s { goroutines = n })
  stops : (s : Lifecycle) → s.stopping ≡ false → Step redis cfg s (begin_stop s)
  stopped : (s : Lifecycle) → s.stopping ≡ true → s.goroutines ≡ 0 → Step redis cfg s (end_stop s)

pub data Reach (redis : Bool) (cfg : EngineConfig) (s : Lifecycle) : Lifecycle → Type 0 where
  here : Reach redis cfg s s
  next : {t u : Lifecycle} → Reach redis cfg s t → Step redis cfg t u → Reach redis cfg s u
