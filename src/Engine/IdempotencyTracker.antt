-- ===== src/Engine/IdempotencyTracker.antt =====
-- `IdempotencyTracker` (internal/engine/exactly_once.go). Times to live are not negative.

pub mod Remembered
use Prim.Native.String.{◌++◌ as str_append}
use agentmsg.Prelude.{ℕ, Bool, String, not}
use agentmsg.Exec.{Error, Exec, reject_if, ◌>>=◌, ◌>>◌}
use agentmsg.Model.Scalars.{Time}
use agentmsg.Services.World.{Services, World}
use agentmsg.Repository.Keys

-- `redis` says whether the pointer is set. `format` is `Time.Format(time.RFC3339Nano)`.
pub record IdempotencyTracker : Type 0 where
  pub redis : Bool
  pub format : Time → String

abbrev pub tracker_key : String → String
tracker_key k = str_append "idempotency:" k

-- `resultID + ":" + time.Now().Format(time.RFC3339Nano)`
abbrev pub result_value : (Time → String) → String → Time → String
result_value format result now = str_append (str_append result ":") (format now)

module _ ⦃sv : Services⦄ (tr : IdempotencyTracker) where
  unfoldable pub check : String → Time → Exec (World sv) Bool
  check k now = do
    reject_if (not tr.redis) Error.engine_dependencies
    Keys.exists (tracker_key k) now

  -- `Record`
  unfoldable pub record_result : String → String → ℕ → Time → Exec (World sv) (Unit {0})
  record_result k result ttl_seconds now = do
    reject_if (not tr.redis) Error.engine_dependencies
    Keys.set_with_expiry (tracker_key k) (result_value tr.format result now) ttl_seconds now

  unfoldable pub get_result : String → Time → Exec (World sv) String
  get_result k now = do
    reject_if (not tr.redis) Error.engine_dependencies
    Keys.get (tracker_key k) now
