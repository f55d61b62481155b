-- ===== src/Service/Idempotency.antt =====
-- `IdempotencyService` (internal/service/billing.go). Durations are not negative.
pub mod Claims
use Prim.Native.String.{◌++◌ as str_append}
use agentmsg.Prelude.{
  ℕ, ◌/◌, Bool, true, false, not, ◌&&◌, Option, none, some, String, str_eq, ltb, if◌then◌else◌,
}
use agentmsg.Exec.{Error, Result, ok, err, Exec, pure, raise, attempt, ignore, when, ◌>>=◌, ◌>>◌}
use agentmsg.Model.Scalars.{Uuid, Time}
use agentmsg.Services.Redis.{second}
use agentmsg.Services.World.{Services, World}
use agentmsg.Repository.Keys

-- `err == nil && existing != ""`
unfoldable pub is_claimed : Result String → Bool
is_claimed (ok existing) = not (str_eq existing "")
is_claimed (err _) = false

-- `time.Format` with the layout RFC3339 is the argument `format`.
module _ ⦃sv : Services⦄ (format : Time → String) where
  abbrev pub combined_key : String → String
  combined_key key = str_append "idempotency:" key

  abbrev pub claim : Uuid → Time → String
  claim id now = str_append (sv.uuids.text id) (str_append ":" (format now))

  -- The deadline of a claim; when it cannot be set, the claim is taken back.
  unfoldable pub limit_claim : String → Time → Time → Exec (World sv) (Unit {0})
  limit_claim key ttl now = do
    limited ← attempt (Keys.expire key (ttl / second) now)
    elim limited [ ok _ ↦ pure tt | err x ↦ ignore (Keys.del key now) >> raise x ]

  unfoldable pub make_claim : String → Uuid → Time → Time → Exec (World sv) Bool
  make_claim key id ttl now = do
    Keys.set (combined_key key) (claim id now) now
    when (ltb 0 ttl) (limit_claim (combined_key key) ttl now)
    pure true

  unfoldable pub check_and_set : String → Uuid → Time → Time → Exec (World sv) Bool
  check_and_set key id ttl now = do
    existing ← attempt (Keys.get (combined_key key) now)
    if is_claimed existing then pure false else make_claim key id ttl now
