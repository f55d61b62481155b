-- ===== src/Repository/Pending.antt =====
-- `RedisClient.LPush` (internal/repository/redis.go) on the key `message:pending`.
use agentmsg.Exec.{Exec}
use agentmsg.Model.Message.{Message, through_json}
use agentmsg.Services.World.{QueueItem, Services, World}

module _ ⦃sv : Services⦄ where
  -- The text of the item is `json.Marshal(msg)`.
  unfoldable pub push_pending : Message → Exec (World sv) (Unit {0})
  unfolding through_json
  push_pending m w =
      let (r, t) = sv.pending.lpush (QueueItem.message (through_json m)) w.pending in
      (r, record w { pending = t })
