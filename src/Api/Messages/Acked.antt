-- ===== src/Api/Messages/Acked.antt =====
-- What an acknowledgement that is answered has written.
use mathlib.Core.Path.{subst}
use agentmsg.Prelude.{
  ◌≡◌, refl, sym, ap, ◌∙◌, Option, some, inl, inr, Bool-cases, String, List, ◌==◌, arith,
}
use agentmsg.Exec.{ok}
use agentmsg.Model.Scalars.{Uuid}
use agentmsg.Model.Message.{Message}
use agentmsg.Model.Acknowledgement.{Acknowledgement, AckStatus, ack_status, is_unset_ack}
use agentmsg.Services.Table.{update_rows}
use agentmsg.Services.World.{Services, World}
use agentmsg.Repository.Messages.{with_status}
use agentmsg.Service.Messages.{
  MessageService, AckDraw, check_ack, prepare_ack, map_ack_to_message_status,
  acknowledge_for_tenant,
}
use agentmsg.Service.Messages.Acknowledging.{
  IsAuthorised, messages_of, acks_of, ack_rows, acked, acknowledge_for_tenant_done,
}
use agentmsg.Api.Responses.{
  Outcome, Handler, Context, respond, bind_json, parse_uuid, context_uuid, serve, ◌>>=◌,
}
use agentmsg.Api.Responses.Steps.{
  bind_value, bind_json_value, pure_step, serve_value, parse_uuid_value, context_uuid_value,
}
use agentmsg.Api.Messages.{
  AckRequest, AckReply, requested_ack, service_message_status_for_ack, given_status,
  acknowledge_message,
}

module _ ⦃sv : Services⦄ (s : MessageService) where
  statuses_agree : (a : AckStatus) → service_message_status_for_ack a ≡ map_ack_to_message_status a
  unfolding service_message_status_for_ack map_ack_to_message_status
  statuses_agree AckStatus.unset = refl
  statuses_agree AckStatus.received = refl
  statuses_agree AckStatus.processed = refl
  statuses_agree AckStatus.rejected = refl
  statuses_agree AckStatus.failed = refl
  statuses_agree (AckStatus.other x) = refl

  -- The answer to an acknowledgement that was recorded, and the end of the handler.
  abbrev reply_to : AckDraw → Acknowledgement → AckReply
  reply_to d a = record {
    ack_status = a.status;
    message_status = service_message_status_for_ack a.status;
    nonce = (prepare_ack d a).nonce;
  }

  acknowledge_last : AckDraw → Uuid → Acknowledgement → Handler (World sv) AckReply
  acknowledge_last d tenant a =
      serve "message_not_found" (acknowledge_for_tenant s d tenant (some a)) >>= λ _.
      respond (reply_to d a)

  check_ack_same : (a b : Acknowledgement) → check_ack (some a) ≡ ok b → b ≡ a
  unfolding check_ack
  check_ack_same a b h = ground arith

  last_written :
      (d : AckDraw) (tenant : Uuid) (a : Acknowledgement) (w : World sv) (reply : AckReply)
      → (acknowledge_last d tenant a w).0 ≡ Outcome.value reply
      → (reply ≡ reply_to d a)
        × IsAuthorised tenant a (messages_of w)
        × (acks_of (acknowledge_last d tenant a w).1 ≡ ack_rows d a (acks_of w))
        × (messages_of (acknowledge_last d tenant a w).1 ≡ acked d a (messages_of w))
  unfolding acknowledge_last
  last_written d tenant a w reply h =
      let m = serve "message_not_found" (acknowledge_for_tenant s d tenant (some a)) in
      let (u, given, run) = bind_value m (λ _. respond (reply_to d a)) w reply h in
      let (done, same) =
        serve_value "message_not_found" (acknowledge_for_tenant s d tenant (some a)) w u given in
      let (b, checked, authorised, acks, messages) =
        acknowledge_for_tenant_done s d tenant (some a) w done in
      let is_a = check_ack_same a b checked in
      let end = ap (λ p. p.1) run ∙ same in
      (
        cc,
        subst (λ x. IsAuthorised tenant x (messages_of w)) is_a authorised,
        ap acks_of end ∙ acks ∙ ap (λ x. ack_rows d x (acks_of w)) is_a,
        ap messages_of end ∙ messages ∙ ap (λ x. acked d x (messages_of w)) is_a,
      )

  -- The handler from each of its steps on.
  after_tenant : AckDraw → Uuid → AckRequest → AckStatus → Uuid → Uuid → Handler (World sv) AckReply
  after_tenant d id rq status agent tenant =
      acknowledge_last d tenant (requested_ack id agent status rq)

  after_agent :
      AckDraw → Context → Uuid → AckRequest → AckStatus → Uuid → Handler (World sv) AckReply
  after_agent d c id rq status agent =
      context_uuid c.tenant_id >>= after_tenant d id rq status agent

  after_status : AckDraw → Context → Uuid → AckRequest → AckStatus → Handler (World sv) AckReply
  after_status d c id rq status = context_uuid c.agent_id >>= after_agent d c id rq status

  after_body : AckDraw → Context → Uuid → AckRequest → Handler (World sv) AckReply
  after_body d c id rq = given_status s (ack_status rq.status) >>= after_status d c id rq

  after_id : AckDraw → Context → Option AckRequest → Uuid → Handler (World sv) AckReply
  after_id d c body id = bind_json body >>= after_body d c id

  acknowledge_message_steps :
      (d : AckDraw) (c : Context) (parameter : String) (body : Option AckRequest)
      → acknowledge_message s d c parameter body ≡ (parse_uuid parameter >>= after_id d c body)
  unfolding acknowledge_message after_id after_body after_status after_agent after_tenant
      acknowledge_last requested_ack
  acknowledge_message_steps d c parameter body = refl

  given_status_value :
      (status : AckStatus) (w : World sv) (a : AckStatus)
      → (given_status s status w).0 ≡ Outcome.value a
      → (a ≡ status) × ((given_status s status w).1 ≡ w)
  given_status_value status w a h = elim (Bool-cases (is_unset_ack status)) [
    | inl unset ↦ absurd (ground (arith, unset, h))
    | inr given ↦ ground (arith, given, h)
  ]

  -- Who asks, from the context of the request.
  asked_by :
      (d : AckDraw) (c : Context) (id : Uuid) (rq : AckRequest) (w : World sv) (reply : AckReply)
      → (after_body d c id rq w).0 ≡ Outcome.value reply
      → (agent : Uuid) × (tenant : Uuid) × (sv.uuids.parse c.agent_id ≡ some agent)
        × (sv.uuids.parse c.tenant_id ≡ some tenant)
        × (after_body d c id rq w
            ≡ acknowledge_last d tenant (requested_ack id agent (ack_status rq.status) rq) w)
  unfolding after_body after_status after_agent after_tenant
  asked_by d c id rq w reply h =
      let (status, is_status, run₁) =
        pure_step (given_status s (ack_status rq.status)) (after_status d c id rq) w reply
          (λ a. a ≡ ack_status rq.status) (given_status_value (ack_status rq.status) w) h in
      let h₁ = sym (ap (λ p. p.0) run₁) ∙ h in
      let (agent, is_agent, run₂) =
        pure_step (context_uuid c.agent_id) (after_agent d c id rq status) w reply
          (λ x. sv.uuids.parse c.agent_id ≡ some x) (context_uuid_value c.agent_id w) h₁ in
      let h₂ = sym (ap (λ p. p.0) run₂) ∙ h₁ in
      let (tenant, is_tenant, run₃) =
        pure_step (context_uuid c.tenant_id) (after_tenant d id rq status agent) w reply
          (λ x. sv.uuids.parse c.tenant_id ≡ some x) (context_uuid_value c.tenant_id w) h₂ in
      (
        agent,
        tenant,
        is_agent,
        is_tenant,
        run₁
            ∙ run₂
            ∙ run₃
            ∙ ap (λ x. acknowledge_last d tenant (requested_ack id agent x rq) w) is_status,
      )

  acknowledge_message_last :
      (d : AckDraw) (c : Context) (parameter : String) (body : Option AckRequest) (w : World sv)
      (reply : AckReply)
      → (acknowledge_message s d c parameter body w).0 ≡ Outcome.value reply
      → (id : Uuid) × (rq : AckRequest) × (sv.uuids.parse parameter ≡ some id)
        × ((after_body d c id rq w).0 ≡ Outcome.value reply)
        × (acknowledge_message s d c parameter body w ≡ after_body d c id rq w)
  unfolding after_id
  acknowledge_message_last d c parameter body w reply h =
      let run₀ = ap (λ f. f w) (acknowledge_message_steps d c parameter body) in
      let h₀ = sym (ap (λ p. p.0) run₀) ∙ h in
      let (id, is_id, run₁) =
        pure_step (parse_uuid parameter) (after_id d c body) w reply
          (λ id. sv.uuids.parse parameter ≡ some id) (parse_uuid_value parameter w) h₀ in
      let h₁ = sym (ap (λ p. p.0) run₁) ∙ h₀ in
      let (rq, _, run₂) =
        pure_step (bind_json body) (after_body d c id) w reply (λ rq. body ≡ some rq)
          (bind_json_value body w) h₁ in
      (id, rq, is_id, sym (ap (λ p. p.0) run₂) ∙ h₁, run₀ ∙ run₁ ∙ run₂)

  written_status :
      (d : AckDraw) (a : Acknowledgement) (reply : AckReply) (rows : List Message)
      → reply ≡ reply_to d a
      → acked d a rows
        ≡ update_rows (λ m. m.id == a.message_id) (with_status reply.message_status d.now) rows
  written_status d a reply rows h =
      let same = ap (λ (r : AckReply). r.message_status) h ∙ statuses_agree a.status in
      ap (λ x. update_rows (λ m. m.id == a.message_id) (with_status x d.now) rows) (sym same)

  -- An acknowledgement that is answered: the agent and the tenant of the request's context may
  -- acknowledge the message that the path names, the acknowledgement is in the table with the nonce of
  -- the answer, and the message has the status that the answer tells.
  pub acknowledge_message_written :
      (d : AckDraw) (c : Context) (parameter : String) (body : Option AckRequest) (w : World sv)
      (reply : AckReply)
      → (acknowledge_message s d c parameter body w).0 ≡ Outcome.value reply
      → let w' = (acknowledge_message s d c parameter body w).1 in
        (a : Acknowledgement) × (tenant : Uuid) × (sv.uuids.parse parameter ≡ some a.message_id)
        × (sv.uuids.parse c.agent_id ≡ some a.agent_id)
        × (sv.uuids.parse c.tenant_id ≡ some tenant)
        × IsAuthorised tenant a (messages_of w)
        × (acks_of w' ≡ ack_rows d a (acks_of w))
        × (reply.nonce ≡ (prepare_ack d a).nonce)
        × (messages_of w'
            ≡ update_rows
                (λ m. m.id == a.message_id)
                (with_status reply.message_status d.now)
                (messages_of w))
  unfolding requested_ack
  acknowledge_message_written d c parameter body w reply h =
      let (id, rq, is_id, h₁, run₁) = acknowledge_message_last d c parameter body w reply h in
      let (agent, tenant, is_agent, is_tenant, run₂) = asked_by d c id rq w reply h₁ in
      let run = run₁ ∙ run₂ in
      let a = requested_ack id agent (ack_status rq.status) rq in
      let h' = sym (ap (λ p. p.0) run) ∙ h in
      let (is, authorised, acks, messages) = last_written d tenant a w reply h' in
      (
        a,
        tenant,
        is_id,
        is_agent,
        is_tenant,
        authorised,
        ap (λ p. acks_of p.1) run ∙ acks,
        ap (λ (r : AckReply). r.nonce) is,
        ap (λ p. messages_of p.1) run ∙ messages ∙ written_status d a reply (messages_of w) is,
      )
