-- ===== src/Model/DeadLetter.antt =====
-- internal/model/message.go: `DeadLetterEntry` and `DeadLetterStatus`.
use agentmsg.Prelude.{ℕ, Bool, true, false, String, Option}
use agentmsg.Model.Scalars.{Uuid, Time}
use agentmsg.Model.Message.{Message}

pub data DeadLetterStatus : Type 0 where
  pending processed exhausted : DeadLetterStatus

-- The payload column: a JSON text whose "message" member is a message, one that is an object
-- without such a member (or with null there), or a text that does not decode.
pub data DeadLetterPayload : Type 0 where
  message : Message → DeadLetterPayload
  no_message : DeadLetterPayload
  malformed : DeadLetterPayload

pub record DeadLetterEntry : Type 0 where
  pub id : Uuid
  pub message_id : Uuid
  pub reason : String
  pub retry_count : ℕ
  pub max_retries : ℕ
  pub payload : DeadLetterPayload
  pub status : DeadLetterStatus
  pub created_at : Time
  pub processed_at : Option Time

-- `status = 'pending'`
abbrev pub is_pending : DeadLetterStatus → Bool
is_pending DeadLetterStatus.pending = true
is_pending _ = false
