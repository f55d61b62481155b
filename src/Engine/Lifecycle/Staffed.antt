-- ===== src/Engine/Lifecycle/Staffed.antt =====
-- Which goroutines an engine has.
use agentmsg.Prelude.{
  ℕ, zero, suc, ◌+◌, ◌≤◌, ℤ, pos, negsuc, ◌≡◌, ◌⊎◌, refl, inl, inr, Bool, true, false, at_most_zero,
  if◌then◌else◌, arith,
}
use agentmsg.Engine.Lifecycle.{
  EngineConfig, Lifecycle, Step, Reach, with_defaults, new_lifecycle, rounds, start, begin_stop,
  end_stop,
}

-- All the goroutines: the workers and the dead letter loop.
abbrev pub full : EngineConfig → ℕ
full cfg = rounds cfg.worker_count + 1

pub record IsStaffed (cfg : EngineConfig) (s : Lifecycle) : Type 0 where
  -- Nothing runs where the engine is not running.
  pub idle : (s.running ≡ true) ⊎ (s.goroutines ≡ 0)
  pub bounded : s.goroutines ≤ full cfg
  -- Everything runs where it is, until its context is done.
  pub staffed : (s.running ≡ false) ⊎ (s.done ≡ true) ⊎ (s.goroutines ≡ full cfg)
  -- A waiting `Stop` has made the context done.
  pub waiting : (s.stopping ≡ false) ⊎ ((s.running ≡ true) × (s.done ≡ true))

module _ (redis : Bool) (cfg : EngineConfig) where
  start-IsStaffed :
      (done : Bool) (s : Lifecycle) → IsStaffed cfg s → IsStaffed cfg (start redis cfg done s).1
  unfolding start
  start-IsStaffed done s h = record {
    idle = ground (arith, h.idle);
    bounded = ground (arith, h.idle, h.bounded);
    staffed = ground (arith, h.idle, h.staffed);
    waiting = ground (arith, h.waiting);
  }

  begin_stop-IsStaffed : (s : Lifecycle) → IsStaffed cfg s → IsStaffed cfg (begin_stop s)
  unfolding begin_stop
  begin_stop-IsStaffed s h = record {
    idle = ground (arith, h.idle);
    bounded = ground (arith, h.bounded);
    staffed = ground (arith, h.staffed);
    waiting = ground (arith, h.waiting);
  }

  Step-IsStaffed : {s t : Lifecycle} → Step redis cfg s t → IsStaffed cfg s → IsStaffed cfg t
  unfolding end_stop
  Step-IsStaffed (Step.starts s done) h = start-IsStaffed done s h
  Step-IsStaffed (Step.cancelled s) h = record {
    idle = h.idle;
    bounded = h.bounded;
    staffed = inr (inl refl);
    waiting = ground (arith, h.waiting);
  }
  Step-IsStaffed (Step.returns s n done some_left) h = record {
    idle = ground (arith, h.idle, some_left);
    bounded = ground (arith, h.bounded, some_left);
    staffed = inr (inl done);
    waiting = h.waiting;
  }
  Step-IsStaffed (Step.stops s free) h = begin_stop-IsStaffed s h
  Step-IsStaffed (Step.stopped s waiting none_left) h = record {
    idle = inr none_left;
    bounded = h.bounded;
    staffed = inl refl;
    waiting = inl refl;
  }

  Reach-IsStaffed : {s t : Lifecycle} → IsStaffed cfg s → Reach redis cfg s t → IsStaffed cfg t
  Reach-IsStaffed h Reach.here = h
  Reach-IsStaffed h (Reach.next r st) = Step-IsStaffed st (Reach-IsStaffed h r)

new_lifecycle-IsStaffed : (cfg : EngineConfig) → IsStaffed cfg new_lifecycle
new_lifecycle-IsStaffed cfg = record {
  idle = inr refl;
  bounded = omega arith;
  staffed = inl refl;
  waiting = inl refl;
}

rounds-with_defaults : (cfg : EngineConfig) → 1 ≤ rounds (with_defaults cfg).worker_count
unfolding with_defaults
rounds-with_defaults cfg = go cfg.worker_count
  where
    go : (z : ℤ) → 1 ≤ rounds (if at_most_zero z then pos 1 else z)
    go (pos zero) = omega arith
    go (pos (suc n)) = omega arith
    go (negsuc n) = omega arith

-- In any state that an engine made by NewMessageEngine reaches, whatever the order of calls of Start
-- and Stop, of cancellations of the parent context and of goroutines that return, where Start is one
-- step and no Stop begins while another waits: it has no goroutine if it is not running, never more
-- than its workers, of which there is at least one, and one dead letter loop, and exactly these while
-- it is running and its context is not done; and while Stop waits the engine is running and its
-- context is done.
pub Reach-IsStaffed_new :
    (redis : Bool) (cfg : EngineConfig) (s : Lifecycle)
    → Reach redis (with_defaults cfg) new_lifecycle s
    → IsStaffed (with_defaults cfg) s × (1 ≤ rounds (with_defaults cfg).worker_count)
Reach-IsStaffed_new redis cfg s r = (
  Reach-IsStaffed redis (with_defaults cfg) (new_lifecycle-IsStaffed (with_defaults cfg)) r,
  rounds-with_defaults cfg,
)
