-- ===== src/Tests/Messages.antt =====
-- The message service at work.
use agentmsg.Prelude.{◌≡◌, ◌⊎◌, ◌≤◌, refl, true, none, some, [], ◌∷◌, All, length, pos, ◌==◌}
use agentmsg.Exec.{Error, ok, err}
use agentmsg.Model.Message.{Message, scan_recipients}
use agentmsg.Model.Acknowledgement.{Acknowledgement, AckStatus}
use agentmsg.Services.World.{World}
use agentmsg.Services.Memory.All.{memory}
use agentmsg.Repository.Pending.{push_pending}
use agentmsg.Repository.Messages.{scan_all, scan_found, inserted_row, ensure_recipient_str}
use agentmsg.Repository.Messages
use agentmsg.Repository.Acknowledgements
use agentmsg.Repository.Messages.Found.{IsRead, is_wanted}
use agentmsg.Service.Messages.{
  MessageService, SendDraw, AckDraw, check_message, check_ack, message_has_recipient, prepare, send,
  record_ack, get_by_id_for_tenant, acknowledge_for_tenant, list_by_tenant, page_limit,
}
use agentmsg.Service.Messages.Sending.{
  rows_of, items_of, stored, queued, read_back, send_done, send_atomic, get_by_id_for_tenant-send,
}
use agentmsg.Service.Messages.Acknowledging.{
  IsAuthorised, messages_of, acks_of, ack_rows, acked, acknowledge_for_tenant_done,
  acknowledge_for_tenant_guarded,
}
use agentmsg.Service.Messages.Listing.{bound, list_by_tenant-IsRead}
use agentmsg.Tests.Fixtures.{hello, empty_world, one_message}

abbrev service : MessageService
service = record { repo = true; ack_repo = true; redis = true }

abbrev draw : SendDraw
draw = record { now = 1000; fresh_id = 70; fresh_conversation = 71 }

send_done_example :
    let w' = (send service draw (some hello) empty_world).1 in
    (m : Message) × (check_message (some hello) ≡ ok m)
    × ((send service draw (some hello) empty_world).0
        ≡ ok (record { message_id = (prepare draw m).id; status = "pending"; delivered_at = none }))
    × (rows_of service w' ≡ stored service draw m ∷ [])
    × (items_of service w' ≡ queued service draw m ∷ [])
unfolding send check_message push_pending Messages.create
send_done_example = send_done service draw (some hello) empty_world refl

-- The queue is down.
abbrev no_queue : World memory
no_queue = record empty_world { pending = record { held = []; faults = true ∷ [] } }

send_atomic_example :
    let w' = (send service draw (some hello) no_queue).1 in
    (items_of service w' ≡ items_of service no_queue)
    ⊎ ((m : Message) × (check_message (some hello) ≡ ok m)
        × (items_of service w' ≡ queued service draw m ∷ items_of service no_queue)
        × (rows_of service w' ≡ stored service draw m ∷ rows_of service no_queue))
send_atomic_example = send_atomic service draw (some hello) no_queue

get_by_id_for_tenant-send_example :
    let w' = (send service draw (some hello) empty_world).1 in
    ((x : Error) × ((memory.messages.get
          (is_wanted hello.tenant_id (prepare draw hello).id)
          w'.messages).0
        ≡ err x))
    ⊎ ((get_by_id_for_tenant service hello.tenant_id (prepare draw hello).id w').0
        ≡ ok (read_back service draw hello))
unfolding send check_message push_pending Messages.create
get_by_id_for_tenant-send_example = get_by_id_for_tenant-send service draw hello empty_world refl

abbrev receipt : Acknowledgement
receipt = record {
  id = 0;
  message_id = 5;
  agent_id = 9;
  status = AckStatus.received;
  details = "";
  processed_at = none;
  nonce = "";
  signature = "";
  created_at = 0;
}

abbrev ack_draw : AckDraw
ack_draw = record { now = 2000; fresh_id = 72; fresh_nonce = 3 }

acknowledge_for_tenant_done_example :
    let w' = (acknowledge_for_tenant service ack_draw 1 (some receipt) one_message).1 in
    (a : Acknowledgement) × (check_ack (some receipt) ≡ ok a)
    × IsAuthorised 1 a (messages_of one_message)
    × (acks_of w' ≡ ack_rows ack_draw a (acks_of one_message))
    × (messages_of w' ≡ acked ack_draw a (messages_of one_message))
unfolding acknowledge_for_tenant check_ack Messages.get_by_id_for_tenant scan_found scan_recipients
    message_has_recipient record_ack Acknowledgements.create Messages.update_status
acknowledge_for_tenant_done_example =
    acknowledge_for_tenant_done service ack_draw 1 (some receipt) one_message refl

-- The tenant 2 has no such message.
acknowledge_for_tenant_guarded_example :
    let w' = (acknowledge_for_tenant service ack_draw 2 (some receipt) one_message).1 in
    ((messages_of w' ≡ messages_of one_message) × (acks_of w' ≡ acks_of one_message))
    ⊎ ((a : Acknowledgement) × (check_ack (some receipt) ≡ ok a)
        × IsAuthorised 2 a (messages_of one_message))
acknowledge_for_tenant_guarded_example =
    acknowledge_for_tenant_guarded service ack_draw 2 (some receipt) one_message

list_by_tenant-IsRead_example :
    All (IsRead (λ m. m.tenant_id == 1) (hello ∷ [])) (hello ∷ [])
    × (length (hello ∷ []) ≤ bound (pos 0))
unfolding list_by_tenant page_limit Messages.list_by_tenant scan_all scan_recipients
list_by_tenant-IsRead_example =
    list_by_tenant-IsRead service 1 (pos 0) (pos 0) one_message (hello ∷ []) refl
