-- ===== src/Service/Subscriptions.antt =====
-- The subscriptions of `MessageService` (internal/service/service_ext.go).
pub mod Listed
pub mod Owned
use agentmsg.Prelude.{ℕ, not, Option, none, some, List, ◌==◌, if◌then◌else◌}
use agentmsg.Exec.{Error, Result, ok, err, Exec, reject_if, ◌>>=◌, ◌>>◌}
use agentmsg.Model.Scalars.{Uuid}
use agentmsg.Model.Subscription.{Subscription}
use agentmsg.Services.World.{Services, World}
use agentmsg.Repository.Subscriptions
use agentmsg.Service.Messages.{MessageService}

-- `if sub.CreatedAt == 0 { … }`; `unix` is the time in seconds.
unfoldable pub dated : ℕ → Subscription → Subscription
dated unix s = record s { created_at = if s.created_at == 0 then unix else s.created_at }

abbrev given_subscription : Option Subscription → Result Subscription
given_subscription none = err Error.invalid_message
given_subscription (some s) = ok s

module _ ⦃sv : Services⦄ (s : MessageService) where
  unfoldable pub create_subscription : ℕ → Option Subscription → Exec (World sv) (Unit {0})
  create_subscription unix given = do
    reject_if (not s.redis) Error.service_unavailable
    sub ← λ w. (given_subscription given, w)
    Subscriptions.create (dated unix sub)

  unfoldable pub list_subscriptions : Uuid → Exec (World sv) (List Subscription)
  list_subscriptions agent = do
    reject_if (not s.redis) Error.service_unavailable
    Subscriptions.list agent

  unfoldable pub delete_subscription : Uuid → Uuid → Exec (World sv) (Unit {0})
  delete_subscription agent id = do
    reject_if (not s.redis) Error.service_unavailable
    Subscriptions.delete agent id
