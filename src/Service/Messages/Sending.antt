-- ===== src/Service/Messages/Sending.antt =====
-- What `Send` stores and queues, and what reading the message gives back.
use mathlib.Core.Path.{subst}
use agentmsg.Prelude.{
  ◌≡◌, ◌⊎◌, inl, inr, true, ◌&&◌, Option, none, some, List, ◌∷◌, Bool-cases, refl, arith, sym, ◌∙◌,
}
use agentmsg.Exec.{Error, ok, err, is_ok, Done-cases, Result-cases}
use agentmsg.Model.Scalars.{Uuid}
use agentmsg.Model.Message.{Message, set_recipients, scan_recipients, through_json}
use agentmsg.Services.World.{QueueItem, Services, World}
use agentmsg.Repository.Pending.{push_pending}
use agentmsg.Services.Table.Lookup.{insert_fresh, get_inserted}
use agentmsg.Repository.Messages.{scan_found, inserted_row, ensure_recipient_str}
use agentmsg.Repository.Messages.Found.{is_wanted}
use agentmsg.Repository.Messages
use agentmsg.Service.Messages.{
  MessageService, SendDraw, check_message, prepare, send, get_by_id_for_tenant,
}

module _ ⦃sv : Services⦄ (s : MessageService) where
  abbrev pub rows_of : World sv → List Message
  rows_of w = sv.messages.rows w.messages

  abbrev pub items_of : World sv → List QueueItem
  items_of w = sv.pending.items w.pending

  -- The row of a message that was sent, and its item on the queue.
  abbrev pub stored : SendDraw → Message → Message
  stored d m = inserted_row d.now (ensure_recipient_str (prepare d m))

  abbrev pub queued : SendDraw → Message → QueueItem
  queued d m = QueueItem.message (through_json (prepare d m))

  -- A message that `Send` accepts: afterwards its row is in the table and its item on the queue.
  pub send_done :
      (d : SendDraw) (given : Option Message) (w : World sv)
      → is_ok (send s d given w).0 ≡ true
      → let w' = (send s d given w).1 in
        (m : Message) × (check_message given ≡ ok m)
        × ((send s d given w).0
            ≡ ok
                (record { message_id = (prepare d m).id; status = "pending"; delivered_at = none }))
        × (rows_of w' ≡ stored d m ∷ rows_of w)
        × (items_of w' ≡ queued d m ∷ items_of w)
  unfolding send push_pending Messages.create
  send_done d given w h = elim (Result-cases (check_message given)) [
    | inl (m, accepted) ↦ (
      m,
      accepted,
      ground (arith, accepted),
      ground (arith, accepted, sv.messages.insert_done (stored d m) w.messages),
      ground (arith, accepted, sv.pending.lpush_done (queued d m) w.pending),
    )
    | inr (x, refused) ↦ ground (arith, refused)
  ]

  -- Whatever `Send` returns, nothing is queued that is not stored.
  pub send_atomic :
      (d : SendDraw) (given : Option Message) (w : World sv)
      → let w' = (send s d given w).1 in
        (items_of w' ≡ items_of w)
        ⊎ ((m : Message) × (check_message given ≡ ok m)
            × (items_of w' ≡ queued d m ∷ items_of w)
            × (rows_of w' ≡ stored d m ∷ rows_of w))
  unfolding send push_pending Messages.create
  send_atomic d given w = elim (Result-cases (check_message given)) [
    | inr (x, refused) ↦ inl (ground (arith, refused))
    | inl (m, accepted) ↦ elim (Done-cases (sv.messages.insert (stored d m) w.messages).0) [
      | inr (x, failed) ↦ inl (ground (arith, accepted, failed))
      | inl inserted ↦ elim (Bool-cases (s.repo && s.redis)) [
        | inr off ↦ inl (ground (arith, off))
        | inl on ↦ elim (sv.pending.lpush_atomic (queued d m) w.pending) [
          | inl same ↦ inl (ground (arith, accepted, inserted, on, same))
          | inr pushed ↦ inr (
            m,
            accepted,
            ground (arith, accepted, inserted, on, pushed),
            ground (arith, accepted, inserted, on, sv.messages.insert_done (stored d m) w.messages),
          )
        ]
      ]
    ]
  ]

module _ ⦃sv : Services⦄ (s : MessageService) where
  -- The message that the row of a sent message stands for: the database drops the expiry, and dates
  -- the creation itself.
  unfoldable pub read_back : SendDraw → Message → Message
  read_back d m = record (prepare d m) {
    created_at = d.now;
    expires_at = none;
    processed_at = none;
  }

  scan-stored : (d : SendDraw) (m : Message) → scan_recipients (stored s d m) ≡ ok (read_back d m)
  unfolding read_back scan_recipients inserted_row ensure_recipient_str prepare set_recipients
  scan-stored d m = refl

  pub check_message_same : (m n : Message) → check_message (some m) ≡ ok n → n ≡ m
  unfolding check_message
  check_message_same m n h = ground arith

  send_inserts :
      (d : SendDraw) (m : Message) (w : World sv)
      → is_ok (send s d (some m) w).0 ≡ true
      → ((sv.messages.insert (stored s d m) w.messages).0 ≡ ok tt) × (s.repo ≡ true)
  unfolding send push_pending Messages.create
  send_inserts d m w h = elim (Result-cases (check_message (some m))) [
    | inr (x, refused) ↦ ground (arith, refused)
    | inl (n, accepted) ↦ elim (Done-cases (sv.messages.insert (stored s d m) w.messages).0) [
      | inr (x, failed) ↦ ground (arith, accepted, failed, check_message_same m n accepted)
      | inl inserted ↦ (inserted, ground arith)
    ]
  ]

  id-stored : (d : SendDraw) (m : Message) → (stored s d m).id ≡ (prepare d m).id
  unfolding inserted_row ensure_recipient_str prepare set_recipients
  id-stored d m = refl

  tenant_id-stored : (d : SendDraw) (m : Message) → (stored s d m).tenant_id ≡ m.tenant_id
  unfolding inserted_row ensure_recipient_str prepare set_recipients
  tenant_id-stored d m = refl

  stored-wanted :
      (d : SendDraw) (m : Message) → is_wanted m.tenant_id (prepare d m).id (stored s d m) ≡ true
  stored-wanted d m = ground (arith, id-stored d m, tenant_id-stored d m)

  id-wanted : (tenant id : Uuid) (x : Message) → is_wanted tenant id x ≡ true → x.id ≡ id
  id-wanted tenant id x h = ground arith

  rows-send :
      (d : SendDraw) (m : Message) (w : World sv)
      → is_ok (send s d (some m) w).0 ≡ true
      → rows_of s (send s d (some m) w).1 ≡ stored s d m ∷ rows_of s w
  rows-send d m w h =
      let (n, accepted, _, rows, _) = send_done s d (some m) w h in
      subst (λ x. rows_of s (send s d (some m) w).1 ≡ stored s d x ∷ rows_of s w)
        (check_message_same m n accepted) rows

  -- Reading a message that was sent, for the tenant that sent it: the database fails, or the
  -- message comes back with its recipients.
  pub get_by_id_for_tenant-send :
      (d : SendDraw) (m : Message) (w : World sv)
      → is_ok (send s d (some m) w).0 ≡ true
      → let w' = (send s d (some m) w).1 in
        ((x : Error) × ((sv.messages.get (is_wanted m.tenant_id (prepare d m).id) w'.messages).0
            ≡ err x))
        ⊎ ((get_by_id_for_tenant s m.tenant_id (prepare d m).id w').0 ≡ ok (read_back d m))
  unfolding get_by_id_for_tenant Messages.get_by_id_for_tenant scan_found
  get_by_id_for_tenant-send d m w h =
      let (inserted, repo) = send_inserts d m w h in
      let found =
        get_inserted sv.messages (is_wanted m.tenant_id (prepare d m).id) (stored s d m)
          (send s d (some m) w).1.messages (rows_of s w) (rows-send d m w h)
          (insert_fresh sv.messages (stored s d m) w.messages inserted) (stored-wanted d m)
          (λ x hit. id-wanted m.tenant_id (prepare d m).id x hit ∙ sym (id-stored d m)) in
      elim found [
        | inl failed ↦ inl failed
        | inr given ↦ inr (ground (arith, repo, given, scan-stored d m))
      ]
