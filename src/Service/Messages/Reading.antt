-- ===== src/Service/Messages/Reading.antt =====
-- A lookup for a tenant.
use agentmsg.Prelude.{◌≡◌, ap, ◌∙◌, none, some, inl, inr, arith}
use agentmsg.Exec.{ok, Result-cases}
use agentmsg.Model.Scalars.{Uuid}
use agentmsg.Model.Message.{Message}
use agentmsg.Services.World.{Services, World}
use agentmsg.Repository.Messages.Found.{IsRead, is_wanted, get_by_id_for_tenant-IsRead}
use agentmsg.Repository.Messages
use agentmsg.Service.Messages.{MessageService, get_by_id_for_tenant}

module _ ⦃sv : Services⦄ (s : MessageService) where
  pub get_by_id_for_tenant_read :
      (tenant id : Uuid) (w : World sv) (m : Message)
      → (get_by_id_for_tenant s tenant id w).0 ≡ ok m
      → IsRead (is_wanted tenant id) (sv.messages.rows w.messages) m
  unfolding get_by_id_for_tenant
  get_by_id_for_tenant_read tenant id w m h =
      elim (Result-cases (Messages.get_by_id_for_tenant tenant id w).0) [
        | inr (x, failed) ↦ absurd (ground (arith, failed, h))
        | inl (none, missing) ↦ absurd (ground (arith, missing, h))
        | inl (some n, found) ↦
            get_by_id_for_tenant-IsRead tenant id w m
              (found ∙ ap (λ x. ok (some x)) (ground (arith, found, h)))
      ]
