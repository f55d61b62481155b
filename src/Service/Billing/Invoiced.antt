-- ===== src/Service/Billing/Invoiced.antt =====
-- What an invoice of `BillingService.GenerateInvoice` bills.
use agentmsg.Prelude.{
  ℕ, ◌+◌, ◌≡◌, refl, sym, ap, ◌∙◌, inl, inr, true, Option, String, List, [], ◌∷◌, map, length,
  filter, All, In, ltb, if◌then◌else◌, Bool-cases, arith,
}
use agentmsg.Exec.{ok, ok_injective, Result-cases}
use agentmsg.Model.Scalars.{Uuid, Time, Float64}
use agentmsg.Model.Billing.{BillingEvent, Invoice, is_message_sent}
use agentmsg.Services.World.{Services, World}
use agentmsg.Repository.Billing.{in_period, get_events_in_period, create_invoice, invoice_row}
use agentmsg.Repository.Billing.Periods.{get_events_in_period-All, get_events_in_period-invoices}
use agentmsg.Service.Billing.{
  Calendar, Floats, message_count, subtotal, line_items, message_amount, invoice_of,
  generate_invoice,
}

abbrev pub sum : List ℕ → ℕ
sum [] = 0
sum (n ∷ ns) = n + sum ns

message_count-sum :
    (events : List BillingEvent)
    → message_count events
      ≡ sum (map (λ e. e.quantity) (filter (λ e. is_message_sent e.event_type) events))
unfolding message_count
message_count-sum [] = refl
message_count-sum (e ∷ es) = ground (arith, message_count-sum es)

-- The numbers added up from the left.
abbrev pub added : Floats → Float64 → List Float64 → Float64
added fl x [] = x
added fl x (y ∷ ys) = added fl (fl.add x y) ys

-- `n` messages are billed: at most one line, with all of them; the subtotal is the sum of the
-- lines' amounts, and the total a tenth more.
pub record Bills (fl : Floats) (n : ℕ) (i : Invoice) : Type 0 where
  pub lines : map (λ l. l.quantity) i.line_items ≡ (if ltb 0 n then n ∷ [] else [])
  pub amounts :
      map (λ l. l.amount) i.line_items
      ≡ (if ltb 0 n then fl.mul (fl.of_int n) (fl.literal "0.001") ∷ [] else [])
  pub subtotal : i.subtotal ≡ added fl (fl.literal "0.0") (map (λ l. l.amount) i.line_items)
  pub tax : i.tax ≡ fl.mul i.subtotal (fl.literal "0.1")
  pub total : i.total ≡ fl.add i.subtotal i.tax

invoice_of-Bills :
    (cal : Calendar) (fl : Floats) (id : Uuid) (number : String) (tenant : Uuid)
    (start end now : Time) (events : List BillingEvent)
    → Bills fl
        (sum (map (λ e. e.quantity) (filter (λ e. is_message_sent e.event_type) events)))
        (invoice_of cal fl id number tenant start end now events)
unfolding invoice_of line_items subtotal message_amount
invoice_of-Bills cal fl id number tenant start end now events =
    rw (← message_count-sum events) (elim (Bool-cases (ltb 0 (message_count events))) [
      | inl some_sent ↦ record {
        lines = rw some_sent;
        amounts = rw some_sent;
        subtotal = rw some_sent;
        tax = refl;
        total = refl;
      }
      | inr none_sent ↦ record {
        lines = rw none_sent;
        amounts = rw none_sent;
        subtotal = rw none_sent;
        tax = refl;
        total = refl;
      }
    ])

module _ ⦃sv : Services⦄ (cal : Calendar) (fl : Floats) (round : ℕ → Float64 → Float64)
    (missing : List String → List String → Option String) where
  -- An invoice that GenerateInvoice returns: there is a list of as many events as the table has of the
  -- tenant in the period, each of them such an event; the invoice bills the quantities of those among
  -- them that are messages sent, on one line if there are any and on none otherwise, with the sum of
  -- the lines' amounts as its subtotal and a tax of a tenth in the total; and its row, without the
  -- lines, was added to the invoices.
  pub generate_invoice-Bills :
      (id : Uuid) (number : String) (tenant : Uuid) (start end now : Time) (w w' : World sv)
      (invoice : Invoice)
      → generate_invoice cal fl round missing id number tenant start end now w ≡ (ok invoice, w')
      → (events : List BillingEvent) × (All
            (λ e.
              (in_period tenant start end e ≡ true)
              × In e (sv.billing_events.rows w.billing_events))
            events
          × (length events
              ≡ length
                  (filter (in_period tenant start end) (sv.billing_events.rows w.billing_events))))
        × Bills fl
            (sum (map (λ e. e.quantity) (filter (λ e. is_message_sent e.event_type) events)))
            invoice
        × (sv.invoices.rows w'.invoices ≡ invoice_row round invoice ∷ sv.invoices.rows w.invoices)
  unfolding generate_invoice create_invoice
  generate_invoice-Bills id number tenant start end now w w' invoice h =
      elim (Result-cases (get_events_in_period missing tenant start end w).0) [
        | inr (x, failed) ↦ absurd (ground (arith, failed, h))
        | inl (events, given) ↦
            let v : World sv = (get_events_in_period missing tenant start end w).1 in
            let made : Invoice = invoice_of cal fl id number tenant start end now events in
            let row : Invoice = invoice_row round made in
            elim (Result-cases (sv.invoices.insert row v.invoices).0) [
              | inr (x, failed) ↦ absurd (ground (arith, given, failed, h))
              | inl (_, stored) ↦
                  let run : generate_invoice cal fl round missing id number tenant start end now w
                      ≡ (ok made, record v { invoices = (sv.invoices.insert row v.invoices).1 }) =
                    ground (arith, given, stored) in
                  let same : made ≡ invoice = ok_injective (ap (λ r. r.0) (sym run ∙ h)) in
                  let world : (sv.invoices.insert row v.invoices).1 ≡ w'.invoices =
                    ap (λ r. (r.1).invoices) (sym run ∙ h) in
                  let kept : v.invoices ≡ w.invoices =
                    get_events_in_period-invoices missing tenant start end w in
                  (
                    events,
                    get_events_in_period-All missing tenant start end w events given,
                    rw (← same) (invoice_of-Bills cal fl id number tenant start end now events),
                    ap sv.invoices.rows (sym world)
                        ∙ sv.invoices.insert_done row v.invoices stored
                        ∙ ap (λ i. invoice_row round i ∷ sv.invoices.rows v.invoices) same
                        ∙ ap (λ t. invoice_row round invoice ∷ sv.invoices.rows t) kept,
                  )
            ]
      ]
