-- ===== src/Repository/Acknowledgements.antt =====
-- `AcknowledgementRepository` of internal/repository/postgres.go, and the same two statements as
-- methods of `PostgresDB`.
use agentmsg.Prelude.{Option, none, ◌==◌}
use agentmsg.Exec.{Exec}
use agentmsg.Model.Scalars.{Uuid}
use agentmsg.Model.Acknowledgement.{Acknowledgement}
use agentmsg.Services.World.{Services, World}
use agentmsg.Repository.Statements.{get_ack, insert_ack}

-- The row that the INSERT makes: `processed_at` is not in its column list.
unfoldable pub ack_row : Acknowledgement → Acknowledgement
ack_row a = record a { processed_at = none }

module _ ⦃sv : Services⦄ where
  unfoldable pub create : Acknowledgement → Exec (World sv) (Unit {0})
  unfolding ack_row
  create a = insert_ack (ack_row a)

  unfoldable pub get_by_message_id : Uuid → Exec (World sv) (Option Acknowledgement)
  get_by_message_id id = get_ack (λ a. a.message_id == id)
