-- ===== src/Api/Messages/Replies.antt =====
-- What the message handlers answer.

use agentmsg.Prelude.{◌≡◌, sym, ap, ◌∙◌, some, String}
use agentmsg.Model.Scalars.{Uuid}
use agentmsg.Model.Message.{Message}
use agentmsg.Services.World.{Services, World}
use agentmsg.Repository.Messages.Found.{IsRead, is_wanted}
use agentmsg.Service.Messages.{MessageService, get_by_id_for_tenant}
use agentmsg.Service.Messages.Reading.{get_by_id_for_tenant_read}
use agentmsg.Api.Responses.{Outcome, Handler, Context, parse_uuid, context_uuid, serve, ◌>>=◌}
use agentmsg.Api.Responses.Steps.{pure_step, serve_value, parse_uuid_value, context_uuid_value}
use agentmsg.Api.Messages.{get_message}

module _ ⦃sv : Services⦄ (s : MessageService) where
  -- A message that is answered is the one that the path names, read from a row of the tenant that the
  -- request was authenticated for.
  pub get_message-IsRead :
      (c : Context) (parameter : String) (w : World sv) (m : Message)
      → (get_message s c parameter w).0 ≡ Outcome.value m
      → (id tenant : Uuid) × (sv.uuids.parse parameter ≡ some id)
        × (sv.uuids.parse c.tenant_id ≡ some tenant)
        × IsRead (is_wanted tenant id) (sv.messages.rows w.messages) m
  unfolding get_message
  get_message-IsRead c parameter w m h =
      let last : Uuid → Uuid → Handler (World sv) Message =
        λ id tenant. serve "message_not_found" (get_by_id_for_tenant s tenant id) in
      let (id, is_id, run₁) =
        pure_step (parse_uuid parameter) (λ id. context_uuid c.tenant_id >>= last id) w m
          (λ id. sv.uuids.parse parameter ≡ some id) (parse_uuid_value parameter w) h in
      let h₁ = sym (ap (λ p. p.0) run₁) ∙ h in
      let (tenant, is_tenant, run₂) =
        pure_step (context_uuid c.tenant_id) (last id) w m
          (λ t. sv.uuids.parse c.tenant_id ≡ some t) (context_uuid_value c.tenant_id w) h₁ in
      let h₂ = sym (ap (λ p. p.0) run₂) ∙ h₁ in
      let (given, _) = serve_value "message_not_found" (get_by_id_for_tenant s tenant id) w m h₂ in
      (id, tenant, is_id, is_tenant, get_by_id_for_tenant_read s tenant id w m given)
