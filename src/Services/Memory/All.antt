-- ===== src/Services/Memory/All.antt =====
-- All services in memory. An identifier's text is as long as its number.
use Prim.Native.String.{[] as empty, ◌∷◌ as push_char}
use agentmsg.Prelude.{ℕ, zero, suc, ◌≡◌, refl, ap, some, String}
use agentmsg.Model.Scalars.{Uuid}
use agentmsg.Model.DeadLetter.{DeadLetterPayload}
use agentmsg.Services.World.{QueueItem, SubscriptionItem, Services}
use agentmsg.Services.Memory.Tables.{memory_table}
use agentmsg.Services.Memory.Redis.{memory_queue, memory_set, memory_channels}
use agentmsg.Services.Memory.Hashes.{memory_hashes}
use agentmsg.Services.Memory.Keys.{memory_keys, memory_counters}

abbrev pub text : Uuid → String
text zero = empty
text (suc n) = push_char "u" (text n)

abbrev pub size : String → ℕ
size String.[] = 0
size (String.◌∷◌ c s) = suc (size s)

size-text : (n : Uuid) → size (text n) ≡ n
size-text zero = refl
size-text (suc n) = ap suc (size-text n)

pub parse-text : (n : Uuid) → some (size (text n)) ≡ some n
parse-text n = ap some (size-text n)

instance abbrev pub memory : Services
memory = record {
  agents = memory_table (λ r. r.id);
  tenants = memory_table (λ t. t.id);
  messages = memory_table (λ m. m.id);
  acknowledgements = memory_table (λ a. a.id);
  dead_letters = memory_table (λ e. e.id);
  billing_events = memory_table (λ e. e.id);
  invoices = memory_table (λ i. i.id);
  pricing_plans = memory_table (λ p. p.id);
  audit_logs = memory_table (λ e. e.id);
  pending = memory_queue QueueItem;
  dlq_pending = memory_set DeadLetterPayload;
  subscriptions = memory_hashes SubscriptionItem;
  channels = memory_channels;
  keys = memory_keys;
  counters = memory_counters;
  uuids = record { text = text; parse = λ s. some (size s); parse-text = parse-text };
}
