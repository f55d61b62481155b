-- ===== src/Tests/ExactlyOnce.antt =====
-- Duplicate detection and idempotency at work.
use agentmsg.Prelude.{◌*◌, ◌≡◌, refl, true, false, String, [], arith}
use agentmsg.Exec.{ok}
use agentmsg.Model.Scalars.{Time}
use agentmsg.Services.Redis.{second}
use agentmsg.Services.Memory.All.{memory}
use agentmsg.Repository.Keys
use agentmsg.Engine.ExactlyOnce.{
  Codec, ExactlyOnceEngine, generate_deduplication_key, window_seconds, mark_as_processed, probe,
  settle, is_duplicate,
}
use agentmsg.Engine.ExactlyOnce.Window.{is_duplicate_within}
use agentmsg.Engine.ExactlyOnce.Race.{both_asked, first_settled, both_let_through}
use agentmsg.Tests.Fixtures.{hello, empty_world}

-- All messages have the same text and digest.
abbrev codec : Codec
codec = record { bytes = λ _. []; marshal = λ _. "{}"; digest = λ _. "d" }

abbrev five_seconds : ExactlyOnceEngine
five_seconds = record { deduplication_window = 5 * second; redis = true; db = true }

abbrev half_second : ExactlyOnceEngine
half_second = record { deduplication_window = 500_000_000; redis = true; db = true }

is_duplicate_within_example :
    (is_duplicate codec five_seconds 2_000 hello
      (is_duplicate codec five_seconds 1_000 hello empty_world).1).0
    ≡ ok true
unfolding is_duplicate probe settle mark_as_processed generate_deduplication_key window_seconds
    Keys.exists Keys.set_with_expiry
is_duplicate_within_example =
    is_duplicate_within codec five_seconds 1_000 2_000 hello hello empty_world refl (ground arith)
      (ground arith) refl refl refl

both_let_through_example :
    let w₁ = (probe codec five_seconds 1_000 hello empty_world).1 in
    ((probe codec five_seconds 1_000 hello empty_world).0 ≡ ok (ok false))
    × ((probe codec five_seconds 1_000 hello w₁).0 ≡ ok (ok false))
    × ((settle codec five_seconds 1_000 hello
          (ok false)
          (both_asked codec five_seconds 1_000 hello hello empty_world)).0
        ≡ ok false)
    × ((settle codec five_seconds 1_000 hello
          (ok false)
          (first_settled codec five_seconds 1_000 hello hello empty_world)).0
        ≡ ok false)
unfolding probe settle mark_as_processed generate_deduplication_key window_seconds Keys.exists
    Keys.set_with_expiry
both_let_through_example =
    both_let_through codec five_seconds 1_000 hello hello empty_world refl refl refl refl refl refl

abbrev format : Time → String
format _ = "2024-01-01T00:00:00Z"
