-- ===== src/Engine/ExactlyOnce.antt =====
-- `ExactlyOnceEngine` (internal/engine/exactly_once.go). Durations are not negative.

pub mod Race
pub mod Window
use Prim.Native.String.{◌++◌ as str_append}
use agentmsg.Prelude.{
  ℕ, ◌+◌, ◌-◌, ◌*◌, ◌/◌, Bool, true, false, not, Option, none, some, String, List, [], ◌∷◌, ◌++◌,
  filter, leb, is_some, str_eq, ◌==◌, if◌then◌else◌,
}
use agentmsg.Exec.{Error, Result, ok, err, Exec, pure, raise, attempt, reject_if, ◌>>=◌, ◌>>◌}
use agentmsg.Model.Scalars.{Uuid, Time, Bytes}
use agentmsg.Model.Message.{Message, MessageStatus, TaskContext}
use agentmsg.Model.Acknowledgement.{Acknowledgement}
use agentmsg.Services.Redis.{second}
use agentmsg.Services.World.{Services, World}
use agentmsg.Repository.Keys
use agentmsg.Repository.Messages
use agentmsg.Repository.Acknowledgements

-- What the engine takes from Go's library: the bytes of a text, `json.Marshal` of a message, and
-- `hex.EncodeToString` of the first 16 bytes of `sha256.Sum256`.
pub record Codec : Type 0 where
  pub bytes : String → Bytes
  pub marshal : Message → String
  pub digest : Bytes → String

-- `redis` and `db` say whether the pointer is set.
pub record ExactlyOnceEngine : Type 0 where
  pub deduplication_window : Time
  pub redis : Bool
  pub db : Bool

-- `":" + msg.TaskContext.TaskID.String()`, where there is a task.
abbrev task_part : (Uuid → Bytes) → Option TaskContext → Bytes
task_part text none = []
task_part text (some t) = 58 ∷ text t.task_id

-- The seconds of the deduplication window, which is 24 hours where the configuration has 0.
unfoldable pub window_seconds : Time → ℕ
window_seconds window = (if window == 0 then 86_400 * second else window) / second

-- `cleanup` on the map of the processed identifiers.
unfoldable pub cleanup : Time → Time → List (String × Time) → List (String × Time)
cleanup window now entries = filter (λ e. leb (now - e.1) window) entries

module _ ⦃sv : Services⦄ (c : Codec) where
  unfoldable pub generate_deduplication_key : Message → String
  generate_deduplication_key m = c.digest (
      c.bytes (sv.uuids.text m.sender_id)
      ++ 58
        ∷ (c.bytes (sv.uuids.text m.conversation_id)
            ++ (task_part (λ id. c.bytes (sv.uuids.text id)) m.task_context ++ 58 ∷ m.content)))

  abbrev pub dedup_key : Message → String
  dedup_key m = str_append "dedup:" (generate_deduplication_key m)

module _ ⦃sv : Services⦄ (e : ExactlyOnceEngine) where
  unfoldable pub check_in_db : Uuid → Exec (World sv) Bool
  check_in_db id = do
    reject_if (not e.db) Error.engine_dependencies
    found ← Messages.get_by_id id
    pure (is_some found)

  unfoldable pub get_delivery_status : Uuid → Exec (World sv) MessageStatus
  get_delivery_status id = do
    reject_if (not e.db) Error.engine_dependencies
    found ← Messages.get_by_id id
    elim found [ none ↦ pure MessageStatus.unset | some m ↦ pure m.status ]

  unfoldable pub record_acknowledgement : Acknowledgement → Exec (World sv) (Unit {0})
  record_acknowledgement a = do
    reject_if (not e.db) Error.engine_dependencies
    Acknowledgements.create a

  unfoldable pub verify_acknowledgement : Uuid → String → Exec (World sv) Bool
  verify_acknowledgement id nonce = do
    reject_if (not e.db) Error.engine_dependencies
    found ← Acknowledgements.get_by_message_id id
    elim found [ none ↦ pure false | some a ↦ pure (str_eq a.nonce nonce) ]

module _ ⦃sv : Services⦄ (c : Codec) (e : ExactlyOnceEngine) where
  unfoldable pub mark_as_processed : Time → Message → Exec (World sv) (Unit {0})
  mark_as_processed now m =
      Keys.set_with_expiry (dedup_key c m) (c.marshal m) (window_seconds e.deduplication_window) now

  -- The two halves of `IsDuplicate`: the call of `Exists`, and what follows from its answer. Other
  -- clients of the server can act between them.
  unfoldable pub probe : Time → Message → Exec (World sv) (Result Bool)
  probe now m = attempt (Keys.exists (dedup_key c m) now)

  unfoldable pub settle : Time → Message → Result Bool → Exec (World sv) Bool
  settle now m (err _) = check_in_db e m.id
  settle now m (ok true) = pure true
  settle now m (ok false) = mark_as_processed now m >> pure false

  unfoldable pub is_duplicate : Time → Message → Exec (World sv) Bool
  is_duplicate now m = do
    reject_if (not e.redis) Error.engine_dependencies
    seen ← probe now m
    settle now m seen
