-- ===== src/Service/Messages.antt =====
-- `MessageService` (internal/service/service.go and service_ext.go). A nil receiver acts like one
-- whose pointers are all nil. The messages and acknowledgements that are filled in through a
-- pointer are not looked at again by the callers, but for the fields in the results here.
pub mod Acknowledging
pub mod Listing
pub mod Reading
pub mod Sending
use agentmsg.Prelude.{
  ℤ, pos, Bool, true, false, not, ◌&&◌, ◌||◌, any, Option, none, some, List, [], ◌∷◌, length,
  at_most_zero, str_eq, ◌==◌, if◌then◌else◌,
}
use agentmsg.Exec.{Error, Result, ok, err, Exec, pure, raise, reject_if, ◌>>=◌, ◌>>◌}
use agentmsg.Model.Scalars.{Uuid, Time, uuid_nil, is_zero}
use agentmsg.Model.Message.{
  Message, MessageStatus, DeliveryGuarantee, SendResult, is_unset_status, is_unset_guarantee,
  set_recipients,
}
use agentmsg.Model.Acknowledgement.{Acknowledgement, AckStatus, is_unset_ack}
use agentmsg.Services.World.{Services, World}
use agentmsg.Repository.Pending.{push_pending}
use agentmsg.Repository.Messages
use agentmsg.Repository.Acknowledgements

-- Which pointers are set.
pub record MessageService : Type 0 where
  pub repo : Bool
  pub ack_repo : Bool
  pub redis : Bool

-- What a call takes from its surroundings: `time.Now()`, and the results of `uuid.New()`.
pub record SendDraw : Type 0 where
  pub now : Time
  pub fresh_id : Uuid
  pub fresh_conversation : Uuid

pub record AckDraw : Type 0 where
  pub now : Time
  pub fresh_id : Uuid
  pub fresh_nonce : Uuid

abbrev pub is_empty : {A : Type 0} → List A → Bool
is_empty [] = true
is_empty (_ ∷ _) = false

-- `msg == nil || len(msg.RecipientIDs) == 0 || len(msg.Content) == 0`
unfoldable pub check_message : Option Message → Result Message
check_message none = err Error.invalid_message
check_message (some m) =
    if is_empty m.recipient_ids || is_empty m.content then err Error.invalid_message else ok m

-- The fields that `Send` fills in.
unfoldable pub prepare : SendDraw → Message → Message
unfolding set_recipients
prepare d m = set_recipients (record m {
  id = if m.id == uuid_nil then d.fresh_id else m.id;
  conversation_id =
      if m.conversation_id == uuid_nil then d.fresh_conversation else m.conversation_id;
  created_at = if is_zero m.created_at then d.now else m.created_at;
  status = if is_unset_status m.status then MessageStatus.pending else m.status;
  delivery_guarantee =
      if is_unset_guarantee m.delivery_guarantee
      then DeliveryGuarantee.at_least_once
      else m.delivery_guarantee;
  content_type = if str_eq m.content_type "" then "application/json" else m.content_type;
  content_size = length m.content;
})

-- `ack == nil`, and then `ack.MessageID == uuid.Nil || ack.AgentID == uuid.Nil || ack.Status == ""`.
unfoldable pub check_ack : Option Acknowledgement → Result Acknowledgement
check_ack none = err Error.invalid_message
check_ack (some a) =
    if (a.message_id == uuid_nil) || ((a.agent_id == uuid_nil) || is_unset_ack a.status)
    then err Error.invalid_message
    else ok a

-- `messageHasRecipient`
unfoldable pub message_has_recipient : Message → Uuid → Bool
message_has_recipient m agent = any (λ id. id == agent) m.recipient_ids

-- `mapAckToMessageStatus`
unfoldable pub map_ack_to_message_status : AckStatus → MessageStatus
map_ack_to_message_status AckStatus.received = MessageStatus.delivered
map_ack_to_message_status AckStatus.processed = MessageStatus.processed
map_ack_to_message_status AckStatus.rejected = MessageStatus.failed
map_ack_to_message_status AckStatus.failed = MessageStatus.failed
map_ack_to_message_status AckStatus.unset = MessageStatus.pending
map_ack_to_message_status (AckStatus.other _) = MessageStatus.pending

-- `if limit <= 0 { limit = 100 }`
unfoldable pub page_limit : ℤ → ℤ
page_limit limit = if at_most_zero limit then pos 100 else limit

module _ ⦃sv : Services⦄ where
  -- The fields that acknowledging fills in.
  unfoldable pub prepare_ack : AckDraw → Acknowledgement → Acknowledgement
  prepare_ack d a = record a {
    id = if a.id == uuid_nil then d.fresh_id else a.id;
    created_at = if is_zero a.created_at then d.now else a.created_at;
    nonce = if str_eq a.nonce "" then sv.uuids.text d.fresh_nonce else a.nonce;
  }

  abbrev pub found_or : {A : Type 0} → Error → Option A → Exec (World sv) A
  found_or e none = raise e
  found_or e (some a) = pure a

module _ ⦃sv : Services⦄ (s : MessageService) where
  unfoldable pub send : SendDraw → Option Message → Exec (World sv) SendResult
  send d given = do
    reject_if (not (s.repo && s.redis)) Error.service_unavailable
    m ← λ w. (check_message given, w)
    let m' = prepare d m
    Messages.create d.now m'
    push_pending m'
    pure (record { message_id = m'.id; status = "pending"; delivered_at = none })

  unfoldable pub get_by_id : Uuid → Exec (World sv) (Option Message)
  get_by_id id = do reject_if (not s.repo) Error.service_unavailable; Messages.get_by_id id

  unfoldable pub get_by_id_for_tenant : Uuid → Uuid → Exec (World sv) Message
  get_by_id_for_tenant tenant id = do
    reject_if (not s.repo) Error.service_unavailable
    found ← Messages.get_by_id_for_tenant tenant id
    found_or Error.message_not_found found

  -- The end of both acknowledging methods.
  unfoldable pub record_ack : AckDraw → Acknowledgement → Exec (World sv) (Unit {0})
  record_ack d a = do
    Acknowledgements.create (prepare_ack d a)
    Messages.update_status d.now a.message_id (map_ack_to_message_status a.status)

  unfoldable pub acknowledge : AckDraw → Option Acknowledgement → Exec (World sv) (Unit {0})
  acknowledge d given = do
    reject_if (not (s.repo && s.ack_repo)) Error.service_unavailable
    a ← λ w. (check_ack given, w)
    found ← Messages.get_by_id a.message_id
    _ ← found_or Error.invalid_message found
    record_ack d a

  unfoldable pub acknowledge_for_tenant :
      AckDraw → Uuid → Option Acknowledgement → Exec (World sv) (Unit {0})
  acknowledge_for_tenant d tenant given = do
    reject_if (not (s.repo && s.ack_repo)) Error.service_unavailable
    a ← λ w. (check_ack given, w)
    found ← Messages.get_by_id_for_tenant tenant a.message_id
    m ← found_or Error.message_not_found found
    reject_if (not (message_has_recipient m a.agent_id)) Error.unauthorized
    record_ack d a

  unfoldable pub list_by_conversation : Uuid → ℤ → Exec (World sv) (List Message)
  list_by_conversation conversation limit = do
    reject_if (not s.repo) Error.service_unavailable
    Messages.list_by_conversation conversation limit

  unfoldable pub list_by_conversation_for_tenant : Uuid → Uuid → ℤ → Exec (World sv) (List Message)
  list_by_conversation_for_tenant tenant conversation limit = do
    reject_if (not s.repo) Error.service_unavailable
    Messages.list_by_conversation_for_tenant tenant conversation limit

  unfoldable pub list_by_tenant : Uuid → ℤ → ℤ → Exec (World sv) (List Message)
  list_by_tenant tenant limit offset = do
    reject_if (not s.repo) Error.service_unavailable
    Messages.list_by_tenant tenant (page_limit limit) offset
