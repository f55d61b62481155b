-- ===== src/Model/Scalars.antt =====
-- Scalar types of the records: a `uuid.UUID` is the number that its 16 bytes spell, a `time.Time`
-- is its distance in nanoseconds from Go's zero time, and a `float64` is its bit pattern, on which
-- no arithmetic is done here.
use agentmsg.Prelude.{ℕ, Bool, List, ◌==◌}

abbrev pub Uuid : Type 0
Uuid = ℕ

-- `uuid.Nil`
abbrev pub uuid_nil : Uuid
uuid_nil = 0

abbrev pub Time : Type 0
Time = ℕ

abbrev pub zero_time : Time
zero_time = 0

-- `t.IsZero()`
abbrev pub is_zero : Time → Bool
is_zero t = t == zero_time

abbrev pub Bytes : Type 0
Bytes = List ℕ

abbrev pub Float64 : Type 0
Float64 = ℕ
