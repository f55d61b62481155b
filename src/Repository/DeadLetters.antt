-- ===== src/Repository/DeadLetters.antt =====
-- The dead letter statements of `PostgresDB` (internal/repository/postgres.go).
use agentmsg.Prelude.{
  ℕ, ℤ, pos, Bool, ◌&&◌, Option, none, some, List, ltb, at_most_zero, ◌==◌, if◌then◌else◌,
}
use agentmsg.Exec.{Exec}
use agentmsg.Model.Scalars.{Uuid, Time}
use agentmsg.Model.DeadLetter.{DeadLetterEntry, DeadLetterStatus, is_pending}
use agentmsg.Services.Table.{ascending}
use agentmsg.Services.World.{Services, World}
use agentmsg.Repository.Statements.{select_entries, insert_entry, update_entries, only_error}

-- `WHERE status = 'pending' AND retry_count < max_retries`
unfoldable pub is_retryable : DeadLetterEntry → Bool
is_retryable e = is_pending e.status && ltb e.retry_count e.max_retries

-- The `SET` clause of `UpdateDeadLetterEntry`.
unfoldable pub with_outcome : DeadLetterStatus → ℕ → Option Time → DeadLetterEntry → DeadLetterEntry
with_outcome status retry_count processed_at e = record e {
  retry_count = retry_count;
  status = status;
  processed_at = processed_at;
}

module _ ⦃sv : Services⦄ where
  unfoldable pub create_entry : DeadLetterEntry → Exec (World sv) (Unit {0})
  create_entry e = insert_entry e

  unfoldable pub list_retryable : ℤ → Exec (World sv) (List DeadLetterEntry)
  unfolding is_retryable
  list_retryable limit = select_entries (record {
    wanted = is_retryable;
    order = ascending (λ e. e.created_at);
    limit = some (if at_most_zero limit then pos 100 else limit);
    offset = none;
  })

  unfoldable pub update_entry :
      Uuid → DeadLetterStatus → ℕ → Option Time → Exec (World sv) (Unit {0})
  unfolding with_outcome
  update_entry id status retry_count processed_at =
      only_error (update_entries (λ e. e.id == id) (with_outcome status retry_count processed_at))
