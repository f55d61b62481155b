-- ===== src/Engine/Submission.antt =====
-- `MessageEngine.SendMessage`, and starting and stopping the engine (internal/engine/engine.go).
use agentmsg.Prelude.{not, ◌||◌, Option, none, some, length, str_eq, ◌==◌, if◌then◌else◌}
use agentmsg.Exec.{Error, Result, ok, err, Exec, pure, reject_if, ◌>>=◌, ◌>>◌}
use agentmsg.Model.Scalars.{Uuid, Time, uuid_nil, is_zero}
use agentmsg.Model.Message.{
  Message, DeliveryGuarantee, SendResult, is_unset_guarantee, set_recipients,
}
use agentmsg.Services.World.{Services, World}
use agentmsg.Repository.Pending.{push_pending}
use agentmsg.Engine.DeadLetter.{is_empty}
use agentmsg.Engine.Worker.{MessageEngine}

-- `time.Now()`, and the results of `uuid.New()`.
pub record SubmitDraw : Type 0 where
  pub now : Time
  pub fresh_id : Uuid
  pub fresh_conversation : Uuid

-- `msg == nil || len(msg.RecipientIDs) == 0 || len(msg.Content) == 0`
unfoldable pub check_submitted : Option Message → Result Message
check_submitted none = err Error.invalid_engine_message
check_submitted (some m) =
    if is_empty m.recipient_ids || is_empty m.content
    then err Error.invalid_engine_message
    else ok m

-- The fields that `SendMessage` fills in; the status is not among them.
unfoldable pub fill_in : SubmitDraw → Message → Message
unfolding set_recipients
fill_in d m = set_recipients (record m {
  id = if m.id == uuid_nil then d.fresh_id else m.id;
  created_at = if is_zero m.created_at then d.now else m.created_at;
  conversation_id =
      if m.conversation_id == uuid_nil then d.fresh_conversation else m.conversation_id;
  delivery_guarantee =
      if is_unset_guarantee m.delivery_guarantee
      then DeliveryGuarantee.at_least_once
      else m.delivery_guarantee;
  content_type = if str_eq m.content_type "" then "application/json" else m.content_type;
  content_size = length m.content;
})

module _ ⦃sv : Services⦄ (e : MessageEngine) where
  unfoldable pub send_message : SubmitDraw → Option Message → Exec (World sv) SendResult
  send_message d given = do
    reject_if (not e.redis) Error.engine_dependencies
    m ← λ w. (check_submitted given, w)
    let m' = fill_in d m
    push_pending m'
    pure (record { message_id = m'.id; status = "pending"; delivered_at = none })
