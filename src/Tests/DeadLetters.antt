-- ===== src/Tests/DeadLetters.antt =====
-- The dead letter queue and the routing of messages at work.
use agentmsg.Prelude.{◌≡◌, ◌⊎◌, ◌≤◌, ◌+◌, refl, inl, true, false, none, some, [], ◌∷◌, ◌==◌, arith}
use agentmsg.Model.Message.{MessageStatus}
use agentmsg.Model.DeadLetter.{DeadLetterEntry, DeadLetterStatus, DeadLetterPayload}
use agentmsg.Services.Table.{update_rows}
use agentmsg.Services.World.{World}
use agentmsg.Services.Memory.All.{memory}
use agentmsg.Repository.DeadLetters.{is_retryable, update_entry, with_outcome}
use agentmsg.Repository.Messages.{update_status, with_status}
use agentmsg.Engine.Channels.{route, publish_each}
use agentmsg.Engine.Channels.Published.{published}
use agentmsg.Engine.DeadLetter.{
  DeadLetterQueue, enqueue, retry_entry, retry_payload, publish_message, record_retry, mark_entry,
  failed_status, outcome_time, resolve_recipients, process, is_empty,
}
use agentmsg.Engine.DeadLetter.Retry.{publishes, retried, retry_entry-rows}
use agentmsg.Engine.DeadLetter.Exhaustion.{RetryRun, retries_end}
use agentmsg.Engine.DeadLetter.Invariant.{
  IsSound, IsSoundTable, process-IsSoundTable, enqueue-IsSoundTable,
}
use agentmsg.Engine.Worker.{MessageEngine, route_message}
use agentmsg.Engine.Worker.Outcomes.{route_sent}
use agentmsg.Tests.Fixtures.{hello, empty_world, one_message}

abbrev queue : DeadLetterQueue
queue = record { redis = true; db = true; max_retries = 3 }

-- Two of three retries are used.
abbrev letter : DeadLetterEntry
letter = record {
  id = 70;
  message_id = 5;
  reason = "down";
  retry_count = 2;
  max_retries = 3;
  payload = DeadLetterPayload.message hello;
  status = DeadLetterStatus.pending;
  created_at = 500;
  processed_at = none;
}

-- The second publication fails.
abbrev one_letter : World memory
one_letter = record empty_world {
  dead_letters = record { held = letter ∷ []; faults = [] };
  channels = record { held = []; faults = false ∷ true ∷ [] };
}

letter-IsSound : IsSound letter
letter-IsSound = record { bounded = ground arith; stamped = refl }

one_letter-IsSoundTable : IsSoundTable (letter ∷ [])
one_letter-IsSoundTable = record { sound = (letter-IsSound, tt); distinct = (tt, tt) }

process-IsSoundTable_example :
    IsSoundTable (memory.dead_letters.rows (process queue 9000 one_letter).1.dead_letters)
process-IsSoundTable_example =
    process-IsSoundTable queue refl 9000 one_letter one_letter-IsSoundTable

enqueue-IsSoundTable_example :
    IsSoundTable
      (memory.dead_letters.rows (enqueue queue 9000 71 hello "down" one_letter).1.dead_letters)
enqueue-IsSoundTable_example =
    enqueue-IsSoundTable queue refl 9000 71 hello "down" one_letter one_letter-IsSoundTable

retry_entry-rows_example :
    let rows' =
      memory.dead_letters.rows (retry_entry queue 9000 letter one_letter).1.dead_letters in
    (rows' ≡ letter ∷ [])
    ⊎ (rows'
        ≡ update_rows
            (λ r. r.id == 70)
            (retried (publishes queue letter.payload one_letter) 9000 letter)
            (letter ∷ []))
retry_entry-rows_example = retry_entry-rows queue 9000 letter one_letter refl

-- The last retry fails, and is recorded.
abbrev exhausted_letter : DeadLetterEntry
exhausted_letter = record letter {
  retry_count = 3;
  status = DeadLetterStatus.exhausted;
  processed_at = some 9000;
}

retries_end_example : 2 + 1 ≤ 3
unfolding is_retryable retry_entry retry_payload publish_message record_retry mark_entry
    failed_status outcome_time resolve_recipients publish_each update_status update_entry
    with_outcome
retries_end_example =
    retries_end queue refl
      (RetryRun.retry 0 letter exhausted_letter one_letter 9000 (tt, tt) (inl refl) refl (λ f. refl)
        (inl refl) refl (RetryRun.no_more exhausted_letter))
      (ground arith)

abbrev engine : MessageEngine
engine = record { redis = true; db = true; max_retries = 3 }

route_sent_example :
    let w' = (route_message engine 9000 hello one_message).1 in
    (is_empty hello.recipient_ids ≡ false)
    × (memory.channels.sent w'.channels
        ≡ published hello.recipient_ids (memory.uuids.text hello.id) [])
    × (memory.messages.rows w'.messages
        ≡ update_rows (λ r. r.id == 5) (with_status MessageStatus.sent 9000) (hello ∷ []))
unfolding route_message route publish_each update_status
route_sent_example = route_sent engine 9000 hello one_message refl refl
