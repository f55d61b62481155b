-- ===== src/Engine/DeadLetter.antt =====
-- `DeadLetterQueue` (internal/engine/engine.go).
pub mod Exhaustion
pub mod Retry
pub mod Invariant
use agentmsg.Prelude.{
  ℕ, suc, ◌+◌, ◌/◌, pos, Bool, true, false, not, ◌&&◌, ◌||◌, Option, none, some, String, List, [],
  ◌∷◌, leb, if◌then◌else◌,
}
use agentmsg.Exec.{
  Error, Result, ok, err, Exec, pure, attempt, reject_if, ignore, when, ◌>>=◌, ◌>>◌,
}
use agentmsg.Model.Scalars.{Uuid, Time}
use agentmsg.Model.Message.{Message, MessageStatus, RecipientStr, scan_recipients, through_json}
use agentmsg.Model.DeadLetter.{DeadLetterEntry, DeadLetterStatus, DeadLetterPayload}
use agentmsg.Services.Redis.{second}
use agentmsg.Services.World.{Services, World}
use agentmsg.Repository.Messages.{update_status}
use agentmsg.Repository.DeadLetters.{create_entry, list_retryable, update_entry}
use agentmsg.Engine.Channels.{publish_each}

-- `redis` and `db` say whether the pointer is set.
pub record DeadLetterQueue : Type 0 where
  pub redis : Bool
  pub db : Bool
  pub max_retries : ℕ

abbrev pub is_empty : {A : Type 0} → List A → Bool
is_empty [] = true
is_empty (_ ∷ _) = false

abbrev has_text : RecipientStr → Bool
has_text RecipientStr.blank = false
has_text _ = true

-- The entry that `Enqueue` makes for a message. `fresh` is the result of `uuid.New()`.
unfoldable pub new_entry : ℕ → Time → Uuid → Message → String → DeadLetterEntry
new_entry max_retries now fresh m reason = record {
  id = fresh;
  message_id = m.id;
  reason = reason;
  retry_count = 0;
  max_retries = max_retries;
  payload = DeadLetterPayload.message (through_json m);
  status = DeadLetterStatus.pending;
  created_at = now;
  processed_at = none;
}

-- `processedAt` of `markEntry`.
unfoldable pub outcome_time : DeadLetterStatus → Time → Option Time
outcome_time DeadLetterStatus.pending now = none
outcome_time DeadLetterStatus.processed now = some now
outcome_time DeadLetterStatus.exhausted now = some now

-- The status after a retry that failed.
unfoldable pub failed_status : DeadLetterEntry → DeadLetterStatus
failed_status e =
    if leb e.max_retries (e.retry_count + 1)
    then DeadLetterStatus.exhausted
    else DeadLetterStatus.pending

-- `len(msg.RecipientIDs) == 0 && msg.RecipientStr != ""` of `publishMessage`.
unfoldable pub resolve_recipients : Message → Result Message
resolve_recipients m =
    if is_empty m.recipient_ids && has_text m.recipient_str then scan_recipients m else ok m

module _ ⦃sv : Services⦄ (q : DeadLetterQueue) where
  abbrev zadd : Time → DeadLetterPayload → Exec (World sv) (Unit {0})
  zadd now payload w =
      let (r, t) = sv.dlq_pending.zadd (now / second) payload w.dlq_pending in
      (r, record w { dlq_pending = t })

  unfoldable pub enqueue : Time → Uuid → Message → String → Exec (World sv) (Unit {0})
  enqueue now fresh m reason =
      if q.db
      then create_entry (new_entry q.max_retries now fresh m reason)
      else if q.redis
      then zadd now (DeadLetterPayload.message (through_json m))
      else λ w. (err Error.engine_dependencies, w)

  -- An error of the statement is only logged.
  unfoldable pub mark_entry :
      Time → DeadLetterEntry → DeadLetterStatus → ℕ → Exec (World sv) (Unit {0})
  mark_entry now e status count =
      when q.db (ignore (update_entry e.id status count (outcome_time status now)))

  unfoldable pub publish_message : Message → Exec (World sv) (Unit {0})
  publish_message m = do
    reject_if (not q.redis) Error.engine_dependencies
    m' ← λ w. (resolve_recipients m, w)
    reject_if (is_empty m'.recipient_ids) Error.no_recipients
    publish_each m'.recipient_ids (sv.uuids.text m'.id)

  -- `retryEntry` for a payload that holds a message, after `publishMessage` has returned.
  unfoldable pub record_retry :
      Time → DeadLetterEntry → Message → Result (Unit {0}) → Exec (World sv) (Unit {0})
  record_retry now e m (ok _) = do
    when q.db (ignore (update_status now m.id MessageStatus.sent))
    mark_entry now e DeadLetterStatus.processed (e.retry_count + 1)
  record_retry now e m (err _) = do
    when (leb e.max_retries (e.retry_count + 1) && q.db)
        (ignore (update_status now m.id MessageStatus.failed))
    mark_entry now e (failed_status e) (e.retry_count + 1)

  unfoldable pub retry_payload :
      DeadLetterPayload → Time → DeadLetterEntry → Exec (World sv) (Unit {0})
  retry_payload (DeadLetterPayload.message m) now e = do
    published ← attempt (publish_message m)
    record_retry now e m published
  retry_payload DeadLetterPayload.no_message now e =
      mark_entry now e DeadLetterStatus.exhausted e.max_retries
  retry_payload DeadLetterPayload.malformed now e =
      mark_entry now e DeadLetterStatus.exhausted e.max_retries

  unfoldable pub retry_entry : Time → DeadLetterEntry → Exec (World sv) (Unit {0})
  retry_entry now e = retry_payload e.payload now e

  unfoldable pub retry_entries : Time → List DeadLetterEntry → Exec (World sv) (Unit {0})
  retry_entries now [] w = (ok tt, w)
  retry_entries now (e ∷ es) w = retry_entries now es (retry_entry now e w).1

  -- An error of the listing is only logged.
  unfoldable pub process : Time → Exec (World sv) (Unit {0})
  process now w =
      if q.db && q.redis
      then (let (r, w') = list_retryable (pos 100) w in
          elim r [ ok entries ↦ retry_entries now entries w' | err _ ↦ (ok tt, w') ])
      else (ok tt, w)
