-- ===== src/Service/Billing/LastDay.antt =====
-- The end of a billing period, `time.Date(now.Year(), now.Month()+1, 0, 0, 0, 0, 0, time.UTC)`.
use agentmsg.Prelude.{
  ℕ, ◌+◌, ◌<◌, ◌≡◌, inl, refl, sym, ap, ◌∙◌, ◌∷◌, false, suc, String, Option, List, In, All_of_In,
  arith,
}
use agentmsg.Exec.{ok}
use agentmsg.Model.Scalars.{Uuid, Time, Float64}
use agentmsg.Model.Billing.{BillingEvent}
use agentmsg.Services.World.{Services, World}
use agentmsg.Repository.Billing.{in_period, event_row, get_events_in_period, create_event}
use agentmsg.Repository.Billing.Periods.{get_events_in_period-All}
use agentmsg.Service.Billing.{
  Calendar, Floats, day, message_sent_event, billing_period_start, billing_period_end,
  record_message_sent,
}

module _ (cal : Calendar) (fl : Floats) (round : ℕ → Float64 → Float64) where
  message_sent_event-in_period :
      (id tenant agent message : Uuid) (now : Time)
      → cal.date (cal.year now) (suc (cal.month now)) 1 < now + day
      → in_period tenant
          (billing_period_start cal now)
          (billing_period_end cal now)
          (event_row round (message_sent_event cal fl id tenant agent message now now now))
        ≡ false
  unfolding message_sent_event event_row in_period billing_period_end billing_period_start
  message_sent_event-in_period id tenant agent message now h =
      ground (arith, cal.day_zero (cal.year now) (cal.month now), h)

module _ ⦃sv : Services⦄ (cal : Calendar) (fl : Floats) (round : ℕ → Float64 → Float64)
    (missing : List String → List String → Option String) where
  -- A message recorded without an error on the last day of a month, after the day's first instant:
  -- its event is in the table, and where the events of the very period that it names are read back
  -- afterwards, it is not among them.
  pub record_message_sent_unbilled :
      (id tenant agent message : Uuid) (now : Time) (w w' : World sv) (events : List BillingEvent)
      → cal.date (cal.year now) (suc (cal.month now)) 1 < now + day
      → record_message_sent cal fl round id tenant agent message now now now w ≡ (ok tt, w')
      → (get_events_in_period missing tenant
          (billing_period_start cal now)
          (billing_period_end cal now)
          w').0
        ≡ ok events
      → let e = event_row round (message_sent_event cal fl id tenant agent message now now now) in
        In e (sv.billing_events.rows w'.billing_events) × ¬ In e events
  unfolding record_message_sent create_event
  record_message_sent_unbilled id tenant agent message now w w' events late done found =
      let e : BillingEvent =
        event_row round (message_sent_event cal fl id tenant agent message now now now) in
      let stored : sv.billing_events.rows (sv.billing_events.insert e w.billing_events).1
          ≡ e ∷ sv.billing_events.rows w.billing_events =
        sv.billing_events.insert_done e w.billing_events (ap (λ r. r.0) done) in
      let after : sv.billing_events.rows w'.billing_events
          ≡ e ∷ sv.billing_events.rows w.billing_events =
        sym (ap (λ r. sv.billing_events.rows (r.1).billing_events) done) ∙ stored in
      let (hits, _) = get_events_in_period-All missing tenant _ _ w' events found in
      (
        rw after (inl refl),
        λ listed.
            let (wanted, _) = All_of_In _ e events hits listed in
            ground (
              arith,
              wanted,
              message_sent_event-in_period cal fl round id tenant agent message now late,
            ),
      )
