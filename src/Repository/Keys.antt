-- ===== src/Repository/Keys.antt =====
-- The calls of `RedisClient` (internal/repository/redis.go) on string keys and on counters.
use agentmsg.Prelude.{ℕ, ◌≡◌, arith, Bool, String, Option, none, some}
use agentmsg.Exec.{Error, Result, ok, err, Exec}
use agentmsg.Model.Scalars.{Time}
use agentmsg.Services.World.{Services, World}

-- A missing key is an error, as a failed call is.
unfoldable pub found : Result (Option String) → Result String
found (ok none) = err (Error.external "redis: nil")
found (ok (some v)) = ok v
found (err x) = err x

pub found_ok : (r : Result (Option String)) (v : String) → found r ≡ ok v → r ≡ ok (some v)
unfolding found
found_ok (ok none) v h = cc
found_ok (ok (some x)) v h = ground (arith, h)
found_ok (err x) v h = cc

module _ ⦃sv : Services⦄ where
  unfoldable pub get : String → Time → Exec (World sv) String
  unfolding found
  get k now w = let (r, t) = sv.keys.get k now w.keys in (found r, record w { keys = t })

  unfoldable pub exists : String → Time → Exec (World sv) Bool
  exists k now w = let (r, t) = sv.keys.exists k now w.keys in (r, record w { keys = t })

  unfoldable pub set_with_expiry : String → String → ℕ → Time → Exec (World sv) (Unit {0})
  set_with_expiry k v seconds now w =
      let (r, t) = sv.keys.set k v seconds now w.keys in (r, record w { keys = t })

  -- `Set`, without an expiry.
  unfoldable pub set : String → String → Time → Exec (World sv) (Unit {0})
  set k v now w = let (r, t) = sv.keys.set k v 0 now w.keys in (r, record w { keys = t })

  unfoldable pub expire : String → ℕ → Time → Exec (World sv) (Unit {0})
  expire k seconds now w =
      let (r, t) = sv.keys.expire k seconds now w.keys in (r, record w { keys = t })

  unfoldable pub del : String → Time → Exec (World sv) (Unit {0})
  del k now w = let (r, t) = sv.keys.del k now w.keys in (r, record w { keys = t })

  unfoldable pub incr : String → Time → Exec (World sv) ℕ
  incr k now w = let (r, t) = sv.counters.incr k now w.counters in (r, record w { counters = t })

  unfoldable pub expire_counter : String → ℕ → Time → Exec (World sv) (Unit {0})
  expire_counter k seconds now w =
      let (r, t) = sv.counters.expire k seconds now w.counters in (r, record w { counters = t })
