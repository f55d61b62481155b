-- ===== src/Engine/Worker/Parked.antt =====
-- What becomes of a message that a worker took from the queue.
use agentmsg.Prelude.{true, ◌≡◌, ◌⊎◌, refl, ap, ◌∙◌, inl, inr, In, arith}
use agentmsg.Exec.{Error, ok, err, error_text, Done-cases}
use agentmsg.Model.Message.{Message}
use agentmsg.Model.DeadLetter.{DeadLetterEntry}
use agentmsg.Services.World.{QueueItem, Services, World}
use agentmsg.Repository.Messages.{update_status}
use agentmsg.Repository.DeadLetters.{create_entry}
use agentmsg.Engine.Channels.Published.{published}
use agentmsg.Engine.DeadLetter.{new_entry, enqueue}
use agentmsg.Engine.Worker.{
  MessageEngine, Draw, route_message, park, process_item, dead_letter_queue,
}
use agentmsg.Engine.Worker.Outcomes.{route_sent}

module _ ⦃sv : Services⦄ (e : MessageEngine) where
  -- The entry that keeps a message whose routing ended in `reason`.
  abbrev pub parked_entry : Draw → Message → Error → DeadLetterEntry
  parked_entry d m reason = new_entry e.max_retries d.now d.fresh m (error_text reason)

  -- The insert of that entry, in the world that routing the message left: the worker makes it, and
  -- the database reports an error for it.
  abbrev pub Refused : Draw → Message → Error → World sv → Type 0
  Refused d m reason w =
      let s = (route_message e d.now m w).1.dead_letters in
      let inserted = sv.dead_letters.insert (parked_entry d m reason) s in
      ((x : Error) × (inserted.0 ≡ err x))
      × ((process_item e d (QueueItem.message m) w).1.dead_letters ≡ inserted.1)

  -- Routing failed, and the entry that keeps the message is in the table of `v`, or was refused.
  abbrev pub Parked : Draw → Message → World sv → World sv → Type 0
  Parked d m w v =
      (reason : Error) × ((route_message e d.now m w).0 ≡ err reason)
      × (In (parked_entry d m reason) (sv.dead_letters.rows v.dead_letters) ⊎ Refused d m reason w)

  park-dead_letters :
      (d : Draw) (m : Message) (reason : Error) (w : World sv)
      → e.db ≡ true
      → (park e d m reason w).1.dead_letters
        ≡ (sv.dead_letters.insert (parked_entry d m reason) w.dead_letters).1
  unfolding park enqueue create_entry update_status dead_letter_queue
  park-dead_letters d m reason w db = ground (arith, db)

  pub process_item-park :
      (d : Draw) (m : Message) (reason : Error) (w : World sv)
      → (route_message e d.now m w).0 ≡ err reason
      → (process_item e d (QueueItem.message m) w).1
        ≡ (park e d m reason (route_message e d.now m w).1).1
  unfolding process_item
  process_item-park d m reason w failed = ground (arith, failed)

  pub process_item-routed :
      (d : Draw) (m : Message) (w : World sv)
      → (route_message e d.now m w).0 ≡ ok tt
      → (process_item e d (QueueItem.message m) w).1 ≡ (route_message e d.now m w).1
  unfolding process_item
  process_item-routed d m w routed = ground (arith, routed)

  -- What becomes of a message: its publications are the latest ones of the log, or it is parked.
  pub process_item_parks :
      (d : Draw) (m : Message) (w : World sv)
      → e.db ≡ true
      → let w' = (process_item e d (QueueItem.message m) w).1 in
        (sv.channels.sent w'.channels
          ≡ published m.recipient_ids (sv.uuids.text m.id) (sv.channels.sent w.channels))
        ⊎ Parked d m w w'
  process_item_parks d m w db =
      let w₁ : World sv = (route_message e d.now m w).1 in
      elim (Done-cases (route_message e d.now m w).0) [
        | inl routed ↦ inl (
            ap (λ x. sv.channels.sent x.channels) (process_item-routed d m w routed)
            ∙ ground (arith, routed, route_sent e d.now m w))
        | inr (reason, failed) ↦
            let entry = parked_entry d m reason in
            let made : (process_item e d (QueueItem.message m) w).1.dead_letters
                ≡ (sv.dead_letters.insert entry w₁.dead_letters).1 =
              ap (λ x. x.dead_letters) (process_item-park d m reason w failed)
              ∙ park-dead_letters d m reason w₁ db in
            inr (
              reason,
              failed,
              elim (Done-cases (sv.dead_letters.insert entry w₁.dead_letters).0) [
                | inl accepted ↦ inl (
                    rw
                      (ap sv.dead_letters.rows made
                        ∙ sv.dead_letters.insert_done entry w₁.dead_letters accepted)
                      (inl refl))
                | inr (x, refused) ↦ inr ((x, refused), made)
              ],
            )
      ]
