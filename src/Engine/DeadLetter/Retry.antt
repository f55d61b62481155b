-- ===== src/Engine/DeadLetter/Retry.antt =====
-- What a retry writes, and how often an entry can be retried.
use agentmsg.Prelude.{
  ℕ, ◌+◌, ◌≡◌, ◌⊎◌, ap, ◌∙◌, inl, inr, Bool, true, false, arith, ◌==◌, leb, Bool-cases,
  if◌then◌else◌,
}
use agentmsg.Exec.{ok, err, Done, Result-cases, is_ok}
use agentmsg.Model.Scalars.{Time}
use agentmsg.Model.Message.{Message, MessageStatus}
use agentmsg.Model.DeadLetter.{DeadLetterEntry, DeadLetterStatus, DeadLetterPayload}
use agentmsg.Services.Table.{update_rows}
use agentmsg.Services.World.{Services, World}
use agentmsg.Repository.Messages.{update_status, with_status}
use agentmsg.Repository.DeadLetters.{with_outcome, update_entry}
use agentmsg.Engine.Channels.Published.{publish_each_frame}
use agentmsg.Engine.DeadLetter.{
  DeadLetterQueue, outcome_time, failed_status, resolve_recipients, mark_entry, publish_message,
  record_retry, retry_payload, retry_entry,
}

-- The status and the count that a retry records, by how publishing the payload ended.
unfoldable pub verdict : Bool → DeadLetterPayload → DeadLetterEntry → DeadLetterStatus × ℕ
verdict published (DeadLetterPayload.message m) e =
    if published
    then (DeadLetterStatus.processed, e.retry_count + 1)
    else if leb e.max_retries (e.retry_count + 1)
    then (DeadLetterStatus.exhausted, e.retry_count + 1)
    else (DeadLetterStatus.pending, e.retry_count + 1)
verdict published _ e = (DeadLetterStatus.exhausted, e.max_retries)

-- A row after a retry of the entry `e`.
unfoldable pub retried : Bool → Time → DeadLetterEntry → DeadLetterEntry → DeadLetterEntry
retried published now e r =
    let (status, count) = verdict published e.payload e in
    with_outcome status count (outcome_time status now) r

module _ ⦃sv : Services⦄ (q : DeadLetterQueue) where
  -- Publishing leaves the tables alone.
  publish_message_frame :
      (m : Message) (w : World sv)
      → (publish_message q m w).1 ≡ record w { channels = (publish_message q m w).1.channels }
  unfolding publish_message
  publish_message_frame m w = elim (Result-cases (resolve_recipients m)) [
    | inl (m', found) ↦
        ground (arith, found, publish_each_frame m'.recipient_ids (sv.uuids.text m'.id) w)
    | inr (x, failed) ↦ ground (arith, failed)
  ]

  -- Did publishing the payload succeed.
  unfoldable pub publishes : DeadLetterPayload → World sv → Bool
  publishes (DeadLetterPayload.message m) w = is_ok (publish_message q m w).0
  publishes _ w = false

  -- The store of the dead letters after the update of one entry.
  abbrev updated : DeadLetterEntry → DeadLetterStatus → ℕ → Time → World sv → sv.dead_letters.Store
  updated e status count now w =
      (sv.dead_letters.update (λ r. r.id == e.id)
        (with_outcome status count (outcome_time status now)) w.dead_letters).1

  mark_entry-dead_letters :
      (now : Time) (e : DeadLetterEntry) (status : DeadLetterStatus) (count : ℕ) (w : World sv)
      → q.db ≡ true
      → (mark_entry q now e status count w).1.dead_letters ≡ updated e status count now w
  unfolding mark_entry update_entry
  mark_entry-dead_letters now e status count w db = ground (arith, db)

  abbrev marked : MessageStatus → Time → Message → World sv → World sv
  marked status now m w =
      let t = (sv.messages.update (λ r. r.id == m.id) (with_status status now) w.messages).1 in
      record w { messages = t }

  record_retry-dead_letters :
      (now : Time) (e : DeadLetterEntry) (m : Message) (r : Done) (w : World sv)
      → q.db ≡ true
      → let (status, count) = verdict (is_ok r) (DeadLetterPayload.message m) e in
        (record_retry q now e m r w).1.dead_letters ≡ updated e status count now w
  unfolding record_retry update_status verdict failed_status
  record_retry-dead_letters now e m (ok _) w db = ground (
    arith,
    mark_entry-dead_letters now e DeadLetterStatus.processed (e.retry_count + 1)
        (marked MessageStatus.sent now m w),
  )
  record_retry-dead_letters now e m (err _) w db =
      elim (Bool-cases (leb e.max_retries (e.retry_count + 1))) [
        | inl last ↦ ground (
          arith,
          last,
          mark_entry-dead_letters now e DeadLetterStatus.exhausted (e.retry_count + 1)
              (marked MessageStatus.failed now m w),
        )
        | inr more ↦ ground (
          arith,
          more,
          mark_entry-dead_letters now e DeadLetterStatus.pending (e.retry_count + 1) w,
        )
      ]

  retry_payload-dead_letters :
      (p : DeadLetterPayload) (now : Time) (e : DeadLetterEntry) (w : World sv)
      → q.db ≡ true
      → let (status, count) = verdict (publishes p w) p e in
        (retry_payload q p now e w).1.dead_letters ≡ updated e status count now w
  unfolding retry_payload publishes
  retry_payload-dead_letters (DeadLetterPayload.message m) now e w db =
      let v : World sv = (publish_message q m w).1 in
      let same : v.dead_letters ≡ w.dead_letters =
        ap (λ x. x.dead_letters) (publish_message_frame m w) in
      ground (arith, same, record_retry-dead_letters now e m (publish_message q m w).0 v db)
  retry_payload-dead_letters DeadLetterPayload.no_message now e w db =
      unfold verdict in mark_entry-dead_letters now e DeadLetterStatus.exhausted e.max_retries w db
  retry_payload-dead_letters DeadLetterPayload.malformed now e w db =
      unfold verdict in mark_entry-dead_letters now e DeadLetterStatus.exhausted e.max_retries w db

  retry_entry-dead_letters :
      (now : Time) (e : DeadLetterEntry) (w : World sv)
      → q.db ≡ true
      → (retry_entry q now e w).1.dead_letters
        ≡ (sv.dead_letters.update
            (λ r. r.id == e.id)
            (retried (publishes e.payload w) now e)
            w.dead_letters).1
  unfolding retry_entry
  retry_entry-dead_letters now e w db =
      unfold retried in retry_payload-dead_letters e.payload now e w db

  -- The dead letter rows after a retry with a database: as they were, or with exactly the rows that
  -- have the entry's identifier marked by the verdict on the publication of its payload.
  pub retry_entry-rows :
      (now : Time) (e : DeadLetterEntry) (w : World sv)
      → q.db ≡ true
      → let rows = sv.dead_letters.rows w.dead_letters in
        let rows' = sv.dead_letters.rows (retry_entry q now e w).1.dead_letters in
        (rows' ≡ rows)
        ⊎ (rows' ≡ update_rows (λ r. r.id == e.id) (retried (publishes e.payload w) now e) rows)
  retry_entry-rows now e w db = rw (retry_entry-dead_letters now e w db) (
      sv.dead_letters.update_atomic (λ r. r.id == e.id) (retried (publishes e.payload w) now e)
        w.dead_letters)

  -- Where the database takes the update of the entry, the rows are marked.
  pub retry_entry_recorded :
      (now : Time) (e : DeadLetterEntry) (w : World sv)
      → q.db ≡ true
      → ((f : DeadLetterEntry → DeadLetterEntry)
          → is_ok (sv.dead_letters.update (λ r. r.id == e.id) f w.dead_letters).0 ≡ true)
      → sv.dead_letters.rows (retry_entry q now e w).1.dead_letters
        ≡ update_rows
            (λ r. r.id == e.id)
            (retried (publishes e.payload w) now e)
            (sv.dead_letters.rows w.dead_letters)
  retry_entry_recorded now e w db accepted =
      let f = retried (publishes e.payload w) now e in
      ap sv.dead_letters.rows (retry_entry-dead_letters now e w db)
      ∙ sv.dead_letters.update_done (λ r. r.id == e.id) f w.dead_letters (accepted f)
