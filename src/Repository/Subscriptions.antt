-- ===== src/Repository/Subscriptions.antt =====
-- The calls of `RedisClient` (internal/repository/redis.go) on subscriptions: one hash for an agent.
use Prim.Native.String.{◌++◌ as str_append}
use agentmsg.Prelude.{String, List, [], ◌∷◌}
use agentmsg.Exec.{Exec, pure, ◌>>=◌}
use agentmsg.Model.Scalars.{Uuid}
use agentmsg.Model.Subscription.{Subscription}
use agentmsg.Services.World.{SubscriptionItem, Services, World}

-- The fields that decode, in the order of the Go map.
unfoldable pub decode_all : List (String × SubscriptionItem) → List Subscription
decode_all [] = []
decode_all ((_, SubscriptionItem.subscription s) ∷ l) = s ∷ decode_all l
decode_all ((_, SubscriptionItem.garbled _) ∷ l) = decode_all l

module _ ⦃sv : Services⦄ where
  abbrev pub subscriptions_key : Uuid → String
  subscriptions_key agent = str_append "subscriptions:" (sv.uuids.text agent)

  abbrev hash : {A : Type 0} → Exec sv.subscriptions.Store A → Exec (World sv) A
  hash m w = let (r, t) = m w.subscriptions in (r, record w { subscriptions = t })

  unfoldable pub create : Subscription → Exec (World sv) (Unit {0})
  create s = hash (
      sv.subscriptions.hset (subscriptions_key s.agent_id) (sv.uuids.text s.id)
        (SubscriptionItem.subscription s))

  unfoldable pub list : Uuid → Exec (World sv) (List Subscription)
  list agent =
      hash (sv.subscriptions.hgetall (subscriptions_key agent)) >>= λ l. pure (decode_all l)

  unfoldable pub delete : Uuid → Uuid → Exec (World sv) (Unit {0})
  delete agent id = hash (sv.subscriptions.hdel (subscriptions_key agent) (sv.uuids.text id))
