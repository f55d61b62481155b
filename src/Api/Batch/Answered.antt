-- ===== src/Api/Batch/Answered.antt =====
-- The answer to a batch of messages.
use mathlib.Core.Path.{subst}
use agentmsg.Prelude.{ℕ, ◌≡◌, ap, sym, ◌∙◌, Option, some, List}
use agentmsg.Model.Scalars.{Uuid}
use agentmsg.Model.Message.{SendResult}
use agentmsg.Services.World.{Services, World}
use agentmsg.Service.Messages.{MessageService}
use agentmsg.Api.Responses.{Outcome, Handler, Context, bind_json, context_uuid, ◌>>=◌}
use agentmsg.Api.Responses.Steps.{pure_step, bind_json_value, context_uuid_value}
use agentmsg.Api.Messages.{MessageRequest}
use agentmsg.Api.Batch.{BatchDraw, send_each, send_batch_messages}
use agentmsg.Api.Batch.Settled.{AllSettled, send_each-AllSettled}

value_injective : {A : Type 0} {a b : A} → Outcome.value a ≡ Outcome.value b → a ≡ b
value_injective h = cc

module _ ⦃sv : Services⦄ (s : MessageService) where
  -- A batch that is answered, whatever the database and the queue do: the agent and the tenant of
  -- the request's context are identifiers, and there is one result for each message, in order.
  -- Each says that there was an error, or that the message is pending; a pending message has its
  -- row in the table and its item on the queue when the batch has ended.
  pub send_batch_messages-AllSettled :
      (draws : ℕ → BatchDraw) (c : Context) (body : Option (List MessageRequest)) (w : World sv)
      (rs : List SendResult)
      → (send_batch_messages s draws c body w).0 ≡ Outcome.value rs
      → (rqs : List MessageRequest) × (sender tenant : Uuid) × (body ≡ some rqs)
        × (sv.uuids.parse c.agent_id ≡ some sender)
        × (sv.uuids.parse c.tenant_id ≡ some tenant)
        × AllSettled s sender tenant c.trace_id
            (send_batch_messages s draws c body w).1
            draws
            0
            rqs
            rs
  unfolding send_batch_messages
  send_batch_messages-AllSettled draws c body w rs h =
      let last : List MessageRequest → Uuid → Uuid → Handler (World sv) (List SendResult) =
        λ rqs sender tenant w.
          let (rs, w') = send_each s draws 0 sender tenant c.trace_id rqs w in
          (Outcome.value rs, w') in
      let (rqs, is_body, run₁) =
        pure_step (bind_json body)
          (λ rqs. context_uuid c.agent_id >>= λ a. context_uuid c.tenant_id >>= last rqs a) w rs
          (λ x. body ≡ some x) (bind_json_value body w) h in
      let h₁ = sym (ap (λ p. p.0) run₁) ∙ h in
      let (sender, is_sender, run₂) =
        pure_step (context_uuid c.agent_id) (λ a. context_uuid c.tenant_id >>= last rqs a) w rs
          (λ x. sv.uuids.parse c.agent_id ≡ some x) (context_uuid_value c.agent_id w) h₁ in
      let h₂ = sym (ap (λ p. p.0) run₂) ∙ h₁ in
      let (tenant, is_tenant, run₃) =
        pure_step (context_uuid c.tenant_id) (last rqs sender) w rs
          (λ x. sv.uuids.parse c.tenant_id ≡ some x) (context_uuid_value c.tenant_id w) h₂ in
      let each = send_each s draws 0 sender tenant c.trace_id rqs w in
      let run = run₁ ∙ run₂ ∙ run₃ in
      let given : each.0 ≡ rs = value_injective (ap (λ p. p.0) (sym run) ∙ h) in
      let settled = (send_each-AllSettled s sender tenant c.trace_id draws 0 rqs w).0 in
      (
        rqs,
        sender,
        tenant,
        is_body,
        is_sender,
        is_tenant,
        subst (λ w'. AllSettled s sender tenant c.trace_id w' draws 0 rqs rs)
            (ap (λ p. p.1) (sym run))
            (subst (AllSettled s sender tenant c.trace_id each.1 draws 0 rqs) given settled),
      )
