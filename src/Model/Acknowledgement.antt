-- ===== src/Model/Acknowledgement.antt =====
-- internal/model/message.go: `Acknowledgement` and `AckStatus`.
use agentmsg.Prelude.{Bool, true, false, String, Option, str_eq, if◌then◌else◌}
use agentmsg.Model.Scalars.{Uuid, Time}

pub data AckStatus : Type 0 where
  unset received processed rejected failed : AckStatus
  other : String → AckStatus

-- `model.AckStatus(text)`, with the constants of the file.
unfoldable pub ack_status : String → AckStatus
ack_status s =
    if str_eq s ""
    then AckStatus.unset
    else if str_eq s "received"
    then AckStatus.received
    else if str_eq s "processed"
    then AckStatus.processed
    else if str_eq s "rejected"
    then AckStatus.rejected
    else if str_eq s "failed"
    then AckStatus.failed
    else AckStatus.other s

-- `status == ""`
abbrev pub is_unset_ack : AckStatus → Bool
is_unset_ack AckStatus.unset = true
is_unset_ack _ = false

pub record Acknowledgement : Type 0 where
  pub id : Uuid
  pub message_id : Uuid
  pub agent_id : Uuid
  pub status : AckStatus
  pub details : String
  pub processed_at : Option Time
  pub nonce : String
  pub signature : String
  pub created_at : Time
