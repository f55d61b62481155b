-- ===== src/Tests/Engine.antt =====
-- The engine at work.
use agentmsg.Prelude.{refl, true, false, [], ◌∷◌}
use agentmsg.Services.World.{QueueItem, World}
use agentmsg.Services.Memory.All.{memory}
use agentmsg.Engine.Worker.{MessageEngine, Draw, process_worker}
use agentmsg.Engine.Worker.Run.{AllSettled, worker_settles}
use agentmsg.Tests.Fixtures.{hello, empty_world}

abbrev engine : MessageEngine
engine = record { redis = true; db = true; max_retries = 3 }

abbrev round : Draw
round = record { now = 1000; fresh = 70 }

-- The publication to the second recipient fails.
abbrev half_down : World memory
half_down = record empty_world {
  pending = record { held = QueueItem.message hello ∷ []; faults = [] };
  channels = record { held = []; faults = false ∷ true ∷ [] };
}

worker_settles_example :
    AllSettled engine (round ∷ []) half_down (process_worker engine (round ∷ []) half_down)
worker_settles_example = worker_settles engine refl (round ∷ []) half_down
