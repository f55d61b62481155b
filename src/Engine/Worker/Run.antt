-- ===== src/Engine/Worker/Run.antt =====
-- A whole run of a worker: what it took from the queue is settled at the end.
use mathlib.Core.Path.{subst}
use agentmsg.Prelude.{sym, Bool-cases, true, ◌≡◌, ◌⊎◌, inl, inr, List, [], ◌∷◌, In, arith}
use agentmsg.Exec.{Error, Result, ok, err, Done-cases, Result-cases}
use agentmsg.Model.Message.{Message}
use agentmsg.Model.DeadLetter.{DeadLetterEntry}
use agentmsg.Services.World.{QueueItem, Services, World}
use agentmsg.Repository.Messages.{update_status}
use agentmsg.Repository.DeadLetters.{create_entry}
use agentmsg.Engine.Channels.Published.{
  Extends, Extends-refl, Extends-trans, published, publish_each_frame, publish_each-Extends,
}
use agentmsg.Engine.Channels.{publish_each}
use agentmsg.Engine.DeadLetter.{enqueue, is_empty}
use agentmsg.Engine.Worker.{
  MessageEngine, Draw, route_message, park, process_item, poll, process_worker, dead_letter_queue,
}
use agentmsg.Engine.Worker.Outcomes.{route_message-recipients}
use agentmsg.Engine.Worker.Parked.{
  parked_entry, Parked, process_item-park, process_item-routed, process_item_parks,
}

module _ ⦃sv : Services⦄ (e : MessageEngine) where
  -- What has become in `v` of an item that a round processed in `w`: it was published to each
  -- recipient, on top of what had been published before; or routing failed, and a dead letter holds
  -- the message or was refused.
  abbrev pub Settled : Draw → QueueItem → World sv → World sv → Type 0
  Settled d (QueueItem.malformed _) w v = Unit
  Settled d (QueueItem.message m) w v =
      Extends (published m.recipient_ids (sv.uuids.text m.id) (sv.channels.sent w.channels))
        (sv.channels.sent v.channels)
      ⊎ Parked e d m w v

  abbrev pub popped : World sv → World sv
  popped w = record w { pending = (sv.pending.rpop w.pending).1 }

  -- What a round took from the queue, if it took something.
  abbrev pub SettledPop : Draw → Result QueueItem → World sv → World sv → Type 0
  SettledPop d (ok item) w v = Settled d item w v
  SettledPop d (err _) w v = Unit

  -- Of a run that begins in `w`: what each of its rounds took is settled in `v`.
  abbrev pub AllSettled : List Draw → World sv → World sv → Type 0
  AllSettled [] w v = Unit
  AllSettled (d ∷ ds) w v =
      SettledPop d (sv.pending.rpop w.pending).0 (popped w) v × AllSettled ds (poll e d w).1 v

  -- Two worlds, the second of which has lost no publication and no dead letter of the first.
  pub record Grows (w w' : World sv) : Type 0 where
    pub sent : Extends (sv.channels.sent w.channels) (sv.channels.sent w'.channels)
    pub parked :
        (x : DeadLetterEntry)
        → In x (sv.dead_letters.rows w.dead_letters)
        → In x (sv.dead_letters.rows w'.dead_letters)

  insert-In :
      (x y : DeadLetterEntry) (s : sv.dead_letters.Store)
      → In x (sv.dead_letters.rows s)
      → In x (sv.dead_letters.rows (sv.dead_letters.insert y s).1)
  insert-In x y s h = elim (sv.dead_letters.insert_atomic y s) [
    | inl same ↦ rw same h
    | inr more ↦ rw more.0 (inr h)
  ]

  route_message-Extends :
      (d : Draw) (m : Message) (w : World sv)
      → Extends
          (sv.channels.sent w.channels)
          (sv.channels.sent (route_message e d.now m w).1.channels)
  unfolding update_status
  route_message-Extends d m w =
      let text = sv.uuids.text m.id in
      let Grown : sv.channels.Store → Type 0 =
        λ t. Extends (sv.channels.sent w.channels) (sv.channels.sent t) in
      elim (Bool-cases (is_empty m.recipient_ids)) [
        | inl nobody ↦
            let same : w.channels ≡ (route_message e d.now m w).1.channels =
              rw (route_message-recipients e d.now m w) (ground (arith, nobody)) in
            subst Grown same (Extends-refl (sv.channels.sent w.channels))
        | inr some_one ↦
            let same : (publish_each m.recipient_ids text w).1.channels
                ≡ (route_message e d.now m w).1.channels =
              rw (route_message-recipients e d.now m w) (ground (arith, some_one)) in
            subst Grown same (publish_each-Extends m.recipient_ids text w)
      ]

  route_message-Grows :
      (d : Draw) (m : Message) (w : World sv) → Grows w (route_message e d.now m w).1
  unfolding update_status
  route_message-Grows d m w = record {
    sent = route_message-Extends d m w;
    parked = λ x h.
        rw (route_message-recipients e d.now m w)
          (ground (arith, h, publish_each_frame m.recipient_ids (sv.uuids.text m.id) w));
  }

  channels-park :
      (d : Draw) (m : Message) (reason : Error) (w : World sv)
      → w.channels ≡ (park e d m reason w).1.channels
  unfolding park enqueue create_entry update_status dead_letter_queue
  channels-park d m reason w = ground arith

  park-Grows :
      (d : Draw) (m : Message) (reason : Error) (w : World sv) → Grows w (park e d m reason w).1
  unfolding park enqueue create_entry update_status dead_letter_queue
  park-Grows d m reason w = record {
    sent =
        subst (λ t. Extends (sv.channels.sent w.channels) (sv.channels.sent t))
          (channels-park d m reason w) (Extends-refl (sv.channels.sent w.channels));
    parked = λ x h. ground (arith, h, insert-In x (parked_entry e d m reason) w.dead_letters h);
  }

  Grows-refl : (w : World sv) → Grows w w
  Grows-refl w = record { sent = Extends-refl (sv.channels.sent w.channels); parked = λ x h. h }

  Grows-trans : (u v w : World sv) → Grows u v → Grows v w → Grows u w
  Grows-trans u v w g h = record {
    sent = Extends-trans _ _ _ g.sent h.sent;
    parked = λ x p. h.parked x (g.parked x p);
  }

  process_item-Grows :
      (d : Draw) (item : QueueItem) (w : World sv) → Grows w (process_item e d item w).1
  process_item-Grows d (QueueItem.malformed _) w = unfold process_item in Grows-refl w
  process_item-Grows d (QueueItem.message m) w =
      let w₁ : World sv = (route_message e d.now m w).1 in
      elim (Done-cases (route_message e d.now m w).0) [
        | inl routed ↦
            subst (Grows w) (sym (process_item-routed e d m w routed)) (route_message-Grows d m w)
        | inr (reason, failed) ↦ subst (Grows w) (sym (process_item-park e d m reason w failed)) (
            Grows-trans w w₁ (park e d m reason w₁).1 (route_message-Grows d m w)
              (park-Grows d m reason w₁))
      ]

  Settled-Grows :
      (d : Draw) (item : QueueItem) (w v v' : World sv)
      → Grows v v'
      → Settled d item w v
      → Settled d item w v'
  Settled-Grows d (QueueItem.malformed _) w v v' g h = tt
  Settled-Grows d (QueueItem.message m) w v v' g (inl all) = inl (Extends-trans _ _ _ all g.sent)
  Settled-Grows d (QueueItem.message m) w v v' g (inr (reason, failed, inl h)) =
      inr (reason, failed, inl (g.parked _ h))
  Settled-Grows d (QueueItem.message m) w v v' g (inr (reason, failed, inr refused)) =
      inr (reason, failed, inr refused)

  poll_item :
      (d : Draw) (w : World sv) (item : QueueItem)
      → (sv.pending.rpop w.pending).0 ≡ ok item
      → (poll e d w).1 ≡ (process_item e d item (popped w)).1
  unfolding poll
  poll_item d w item h = ground (arith, h)

  poll_idle :
      (d : Draw) (w : World sv) (x : Error)
      → (sv.pending.rpop w.pending).0 ≡ err x
      → (poll e d w).1 ≡ popped w
  unfolding poll
  poll_idle d w x h = ground (arith, h)

  popped-Grows : (w : World sv) → Grows w (popped w)
  popped-Grows w = record { sent = Extends-refl (sv.channels.sent w.channels); parked = λ x h. h }

  poll-Grows : (d : Draw) (w : World sv) → Grows w (poll e d w).1
  poll-Grows d w = elim (Result-cases (sv.pending.rpop w.pending).0) [
    | inl (item, h) ↦
        rw (poll_item d w item h)
          (Grows-trans w (popped w) _ (popped-Grows w) (process_item-Grows d item (popped w)))
    | inr (x, h) ↦ rw (poll_idle d w x h) (popped-Grows w)
  ]

  process_worker-Grows : (ds : List Draw) (w : World sv) → Grows w (process_worker e ds w)
  unfolding process_worker
  process_worker-Grows [] w = Grows-refl w
  process_worker-Grows (d ∷ ds) w =
      Grows-trans w (poll e d w).1 _ (poll-Grows d w) (process_worker-Grows ds (poll e d w).1)

module _ ⦃sv : Services⦄ (e : MessageEngine) (db : e.db ≡ true) where
  process_item-Settled :
      (d : Draw) (item : QueueItem) (w : World sv) → Settled e d item w (process_item e d item w).1
  process_item-Settled d (QueueItem.malformed _) w = tt
  process_item-Settled d (QueueItem.message m) w = elim (process_item_parks e d m w db) [
    | inl sent ↦ inl ([], sent)
    | inr parked ↦ inr parked
  ]

  poll-SettledPop :
      (d : Draw) (w v : World sv)
      → Grows e (poll e d w).1 v
      → SettledPop e d (sv.pending.rpop w.pending).0 (popped e w) v
  poll-SettledPop d w v g = elim (Result-cases (sv.pending.rpop w.pending).0) [
    | inr (x, idle) ↦ rw idle tt
    | inl (item, h) ↦
        let settled : Settled e d item (popped e w) (poll e d w).1 =
          rw (poll_item e d w item h) (process_item-Settled d item (popped e w)) in
        rw h (Settled-Grows e d item (popped e w) (poll e d w).1 v g settled)
  ]

  -- When a run of a worker with a database ends, of every message that one of its rounds took from
  -- the queue: after what had been published before that round, its identifier has been published to
  -- each of its recipients in order; or routing it failed with an error, and the dead letter with
  -- that error stands in the table, or the round tried to insert it and the database reported an
  -- error for this insert.
  pub worker_settles : (ds : List Draw) (w : World sv) → AllSettled e ds w (process_worker e ds w)
  unfolding process_worker
  worker_settles [] w = tt
  worker_settles (d ∷ ds) w =
      let w₁ : World sv = (poll e d w).1 in
      (poll-SettledPop d w _ (process_worker-Grows e ds w₁), worker_settles ds w₁)
