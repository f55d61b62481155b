-- ===== src/Sdk/Client/Subscriptions.antt =====
-- The methods of `Client` on subscriptions.
use Prim.Native.String.{◌++◌ as str_append}
use agentmsg.Prelude.{List}
use agentmsg.Model.Scalars.{Uuid}
use agentmsg.Model.Subscription.{Subscription}
use agentmsg.Sdk.Http.{Call, Transport, ◌>>=◌, ◌>>◌}
use agentmsg.Sdk.Messages.{Encoder}
use agentmsg.Sdk.Client.{ClientConfig, Decoder, request, request_with, expect, decode}

module _ (t : Transport) (c : ClientConfig) (e : Encoder) (d : Decoder) where
  unfoldable pub create_subscription : Subscription → Call t.Store (Unit {0})
  create_subscription s = do
    resp ← t.round_trip (request_with c "POST" "/api/v1/subscriptions" (e.subscription s))
    expect d 201 resp

  unfoldable pub list_subscriptions : Call t.Store (List Subscription)
  list_subscriptions = do
    resp ← t.round_trip (request c "GET" "/api/v1/subscriptions")
    expect d 200 resp
    decode d.subscriptions resp

  unfoldable pub delete_subscription : Uuid → Call t.Store (Unit {0})
  delete_subscription id = do
    resp ← t.round_trip (request c "DELETE" (str_append "/api/v1/subscriptions/" (e.uuid id)))
    expect d 204 resp
