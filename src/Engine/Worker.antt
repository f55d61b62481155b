-- ===== src/Engine/Worker.antt =====
-- `MessageEngine` (internal/engine/engine.go): routing one message, and the loop of a worker.
pub mod Outcomes
pub mod Parked
pub mod Run
use agentmsg.Prelude.{
  ℕ, Bool, true, false, not, ◌||◌, Option, none, some, String, List, [], ◌∷◌, map, length, str_eq,
  ◌==◌, if◌then◌else◌,
}
use agentmsg.Exec.{
  Error, Result, ok, err, Exec, pure, attempt, reject_if, ignore, when, error_text, ◌>>=◌, ◌>>◌,
}
use agentmsg.Model.Scalars.{Uuid, Time, uuid_nil, is_zero}
use agentmsg.Model.Message.{
  Message, MessageStatus, DeliveryGuarantee, is_unset_guarantee, set_recipients, through_json,
}
use agentmsg.Services.World.{QueueItem, Services, World}
use agentmsg.Repository.Messages.{update_status}
use agentmsg.Engine.Channels.{route, publish_each}
use agentmsg.Engine.DeadLetter.{DeadLetterQueue, is_empty, enqueue}

-- `redis` and `db` say whether the pointer is set; the queue is built from them. `max_retries` is an
-- int, which is not negative here: cmd/message-engine/main.go gives 3.
pub record MessageEngine : Type 0 where
  pub redis : Bool
  pub db : Bool
  pub max_retries : ℕ

unfoldable pub dead_letter_queue : MessageEngine → DeadLetterQueue
dead_letter_queue e = record { redis = e.redis; db = e.db; max_retries = e.max_retries }

-- What a round of a worker takes from its surroundings: `time.Now()`, and the identifier that
-- `uuid.New()` gives for a dead letter.
pub record Draw : Type 0 where
  pub now : Time
  pub fresh : Uuid

module _ ⦃sv : Services⦄ (e : MessageEngine) where
  unfoldable pub route_message : Time → Message → Exec (World sv) (Unit {0})
  route_message now m = do
    let routes = route m
    reject_if (is_empty routes) Error.no_routes
    publish_each (map (λ r. r.recipient_id) routes) (sv.uuids.text m.id)
    when e.db (update_status now m.id MessageStatus.sent)

  -- What the worker does when `routeMessage` failed.
  unfoldable pub park : Draw → Message → Error → Exec (World sv) (Unit {0})
  park d m reason = do
    when e.db (ignore (update_status d.now m.id MessageStatus.dead_letter))
    parked ← attempt (enqueue (dead_letter_queue e) d.now d.fresh m (error_text reason))
    elim parked [
      | ok _ ↦ pure tt
      | err _ ↦ when e.db (ignore (update_status d.now m.id MessageStatus.failed))
    ]

  -- One item of the queue; a text that does not decode is logged and dropped.
  unfoldable pub process_item : Draw → QueueItem → Exec (World sv) (Unit {0})
  process_item d (QueueItem.malformed _) = pure tt
  process_item d (QueueItem.message m) = do
    routed ← attempt (route_message d.now m)
    elim routed [ ok _ ↦ pure tt | err reason ↦ park d m reason ]

  -- A round of the loop; when `RPop` fails the worker sleeps.
  unfoldable pub poll : Draw → Exec (World sv) (Unit {0})
  poll d w =
      let (r, t) = sv.pending.rpop w.pending in
      let w' : World sv = record w { pending = t } in
      elim r [ ok item ↦ process_item d item w' | err _ ↦ (ok tt, w') ]

  -- The loop until the context is done, which is after any number of rounds.
  unfoldable pub process_worker : List Draw → World sv → World sv
  process_worker [] w = w
  process_worker (d ∷ ds) w = process_worker ds (poll d w).1
