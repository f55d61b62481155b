-- ===== src/Tests/Billing.antt =====
-- Billing at work, in a calendar whose months all have 31 days. A float64 is counted in thousandths.
use agentmsg.Prelude.{
  ℕ, ◌+◌, ◌-◌, ◌*◌, ◌/◌, ◌%◌, ◌≡◌, inl, inr, refl, true, false, Option, none, some, String, List,
  [], ◌∷◌, any, str_eq, length, filter, map, All, In, if◌then◌else◌, Bool-cases, ◌==◌, arith,
}
use agentmsg.Exec.{is_ok}
use agentmsg.Model.Scalars.{Time, Float64}
use agentmsg.Model.Billing.{BillingEvent, Invoice, is_message_sent}
use agentmsg.Services.World.{World}
use agentmsg.Services.Memory.All.{memory}
use agentmsg.Repository.Billing.{
  in_period, event_row, invoice_row, create_event, create_invoice, scanned, get_events_in_period,
}
use agentmsg.Repository.Billing.Scanned.{ReportsMissing}
use agentmsg.Service.Billing.{
  Calendar, Floats, day, billing_period_start, billing_period_end, message_sent_event,
  record_message_sent, generate_invoice, invoice_of, message_count, line_items, check_quota,
  get_pricing_plans,
}
use agentmsg.Service.Billing.Quota.{billing_unreadable}
use agentmsg.Service.Billing.LastDay.{record_message_sent_unbilled}
use agentmsg.Service.Billing.Invoiced.{Bills, sum, generate_invoice-Bills}
use agentmsg.Tests.Fixtures.{empty_world}

abbrev calendar : Calendar
calendar = record {
  year = λ t. (t / day - 32) / 372;
  month = λ t. ((t / day - 32) % 372) / 31 + 1;
  date = λ y m d. (y * 372 + m * 31 + d) * day;
  unix = λ t. t / 1_000_000_000;
  add_days = λ n t. t + n * day;
  day_zero = λ y m. omega arith;
}

abbrev floats : Floats
floats = record {
  literal = λ s. if str_eq s "0.001" then 1 else if str_eq s "0.1" then 100 else 0;
  of_int = λ n. n * 1000;
  add = λ a b. a + b;
  mul = λ a b. a * b / 1000;
}

abbrev round : ℕ → Float64 → Float64
round decimals x = if decimals == 2 then x / 10 * 10 else x

-- The first column that is not a field.
abbrev missing : List String → List String → Option String
missing [] fields = none
missing (c ∷ cs) fields = if any (str_eq c) fields then missing cs fields else some c

missing-ReportsMissing : ReportsMissing missing
missing-ReportsMissing [] fields c held absent = elim held [ ]
missing-ReportsMissing (d ∷ ds) fields c held absent = elim (Bool-cases (any (str_eq d) fields)) [
  | inr out ↦ rw out refl
  | inl here ↦ elim held [
    | inl same ↦ absurd (ground (arith, absent, here, same))
    | inr later ↦ rw here (missing-ReportsMissing ds fields c later absent)
  ]
]

billing_unreadable_example :
    (is_ok (check_quota missing calendar 1 100 100 empty_world).0 ≡ false)
    × (is_ok (get_pricing_plans missing empty_world).0 ≡ false)
billing_unreadable_example =
    billing_unreadable missing missing-ReportsMissing calendar 1 100 100 empty_world

-- The last day of a month, five nanoseconds after midnight.
abbrev last_day : Time
last_day = (2 * 372 + 3 * 31 + 31) * day + 5

abbrev recorded : World memory
recorded = record empty_world {
  billing_events = record {
    held =
        event_row round (message_sent_event calendar floats 3 1 7 5 last_day last_day last_day)
        ∷ [];
    faults = [];
  };
}

record_message_sent_unbilled_example :
    let e =
      event_row round (message_sent_event calendar floats 3 1 7 5 last_day last_day last_day) in
    In e (e ∷ []) × ¬ In e []
unfolding record_message_sent create_event get_events_in_period scanned in_period event_row
    message_sent_event billing_period_start billing_period_end
record_message_sent_unbilled_example =
    record_message_sent_unbilled calendar floats round missing 3 1 7 5 last_day empty_world recorded
      [] (omega arith) refl refl

-- An invoice until the end of that day bills it.
abbrev sent : List BillingEvent
sent = recorded.billing_events.held

abbrev invoice : Invoice
invoice =
    invoice_of calendar floats 9 "INV-000203-00000009" 1 0 (last_day + day) (last_day + day) sent

abbrev invoiced : World memory
invoiced = record recorded {
  invoices = record { held = invoice_row round invoice ∷ []; faults = [] };
}

one_message : map (λ l. l.quantity) invoice.line_items ≡ 1 ∷ []
unfolding invoice_of message_count line_items event_row message_sent_event
one_message = refl

generate_invoice-Bills_example :
    (events : List BillingEvent) × (All
        (λ e. (in_period 1 0 (last_day + day) e ≡ true) × In e sent)
        events
      × (length events ≡ length (filter (in_period 1 0 (last_day + day)) sent)))
    × Bills floats
        (sum (map (λ e. e.quantity) (filter (λ e. is_message_sent e.event_type) events)))
        invoice
    × (invoice_row round invoice ∷ [] ≡ invoice_row round invoice ∷ [])
unfolding generate_invoice create_invoice get_events_in_period scanned in_period event_row
    message_sent_event
generate_invoice-Bills_example =
    generate_invoice-Bills calendar floats round missing 9 "INV-000203-00000009" 1 0
      (last_day + day) (last_day + day) recorded invoiced invoice refl
