-- ===== src/Api/Subscriptions.antt =====
-- The subscription handlers of internal/api/handler_batch.go.
use agentmsg.Prelude.{ℕ, Option, some, String, List}
use agentmsg.Model.Scalars.{Uuid}
use agentmsg.Model.Subscription.{Subscription, SubscriptionFilter, SubStatus, SubType}
use agentmsg.Services.World.{Services, World}
use agentmsg.Service.Messages.{MessageService}
use agentmsg.Service.Subscriptions
use agentmsg.Service.Subscriptions.{dated}
use agentmsg.Api.Responses.{
  Handler, Context, respond, serve, bind_json, parse_uuid, context_uuid, ◌>>=◌,
}

pub record CreateSubscriptionRequest : Type 0 where
  pub kind : SubType
  pub wanted : SubscriptionFilter

-- `unix` is the time in seconds.
unfoldable pub requested_subscription :
    ℕ → Uuid → Uuid → Uuid → CreateSubscriptionRequest → Subscription
requested_subscription unix fresh agent tenant rq = record {
  id = fresh;
  agent_id = agent;
  tenant_id = tenant;
  kind = rq.kind;
  wanted = rq.wanted;
  status = SubStatus.active;
  created_at = unix;
}

module _ ⦃sv : Services⦄ (s : MessageService) where
  -- Answers with status 201.
  unfoldable pub create_subscription :
      ℕ → Uuid → Context → Option CreateSubscriptionRequest → Handler (World sv) Subscription
  create_subscription unix fresh c body = do
    rq ← bind_json body
    agent ← context_uuid c.agent_id
    tenant ← context_uuid c.tenant_id
    let sub = requested_subscription unix fresh agent tenant rq
    _ ← serve "subscription_not_found" (Subscriptions.create_subscription s unix (some sub))
    respond (dated unix sub)

  -- Answers with status 200 and the number of subscriptions.
  unfoldable pub list_subscriptions : Context → Handler (World sv) (List Subscription)
  list_subscriptions c = do
    agent ← context_uuid c.agent_id
    serve "subscription_not_found" (Subscriptions.list_subscriptions s agent)

  -- Answers with status 204. `parameter` is the part `id` of the path.
  unfoldable pub delete_subscription : Context → String → Handler (World sv) (Unit {0})
  delete_subscription c parameter = do
    id ← parse_uuid parameter
    agent ← context_uuid c.agent_id
    serve "subscription_not_found" (Subscriptions.delete_subscription s agent id)
