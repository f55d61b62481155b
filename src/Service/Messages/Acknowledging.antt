-- ===== src/Service/Messages/Acknowledging.antt =====
-- Who can acknowledge a message, and what an acknowledgement writes.
use agentmsg.Prelude.{
  ◌≡◌, ◌⊎◌, inl, inr, sym, ap, ◌∙◌, true, false, ◌&&◌, Option, none, some, List, [], ◌∷◌, In,
  Bool-cases, ◌==◌, arith, any, ==_iff,
}
use agentmsg.Exec.{ok, is_ok, Result-cases}
use agentmsg.Model.Scalars.{Uuid}
use agentmsg.Model.Message.{Message}
use agentmsg.Model.Acknowledgement.{Acknowledgement}
use agentmsg.Repository.Messages.Found.{IsRead, is_wanted, get_by_id_for_tenant-IsRead}
use agentmsg.Services.Table.{update_rows}
use agentmsg.Services.World.{Services, World}
use agentmsg.Repository.Messages.{scan_found, with_status}
use agentmsg.Repository.Acknowledgements.{ack_row}
use agentmsg.Repository.Messages
use agentmsg.Repository.Acknowledgements
use agentmsg.Service.Messages.{
  MessageService, AckDraw, check_ack, message_has_recipient, map_ack_to_message_status, prepare_ack,
  record_ack, acknowledge_for_tenant,
}

any-In : (agent : Uuid) (ids : List Uuid) → any (λ id. id == agent) ids ≡ true → In agent ids
any-In agent [] h = cc
any-In agent (id ∷ ids) h = elim (Bool-cases (id == agent)) [
  | inl hit ↦ inl (ground (arith, ==_iff id agent))
  | inr miss ↦ inr (any-In agent ids (ground arith))
]

message_has_recipient-In :
    (m : Message) (agent : Uuid) → message_has_recipient m agent ≡ true → In agent m.recipient_ids
unfolding message_has_recipient
message_has_recipient-In m agent h = any-In agent m.recipient_ids h

-- A row of `rows` is the message of `tenant` that `a` is about, and the agent of `a` is among the
-- recipients that the row names.
pub record IsAuthorised (tenant : Uuid) (a : Acknowledgement) (rows : List Message) : Type 0 where
  pub message : Message
  pub found : IsRead (is_wanted tenant a.message_id) rows message
  pub recipient : In a.agent_id message.recipient_ids

module _ ⦃sv : Services⦄ where
  abbrev pub messages_of : World sv → List Message
  messages_of w = sv.messages.rows w.messages

  abbrev pub acks_of : World sv → List Acknowledgement
  acks_of w = sv.acknowledgements.rows w.acknowledgements

  -- What a recorded acknowledgement adds, and what it changes.
  abbrev pub ack_rows : AckDraw → Acknowledgement → List Acknowledgement → List Acknowledgement
  ack_rows d a rows = ack_row (prepare_ack d a) ∷ rows

  abbrev pub acked : AckDraw → Acknowledgement → List Message → List Message
  acked d a rows =
      update_rows (λ m. m.id == a.message_id)
        (with_status (map_ack_to_message_status a.status) d.now) rows

  get-rows :
      (tenant id : Uuid) (w : World sv)
      → let w' = (Messages.get_by_id_for_tenant tenant id w).1 in
        (messages_of w' ≡ messages_of w) × (acks_of w' ≡ acks_of w)
  unfolding Messages.get_by_id_for_tenant
  get-rows tenant id w = elim (Result-cases (sv.messages.get (is_wanted tenant id) w.messages).0) [
    | inl (found, given) ↦ (
      ground (arith, given, sv.messages.rows-get (is_wanted tenant id) w.messages),
      ground (arith, given),
    )
    | inr (x, failed) ↦ (
      ground (arith, failed, sv.messages.rows-get (is_wanted tenant id) w.messages),
      ground (arith, failed),
    )
  ]

module _ ⦃sv : Services⦄ (s : MessageService) where
  record_ack_done :
      (d : AckDraw) (a : Acknowledgement) (w : World sv)
      → (record_ack s d a w).0 ≡ ok tt
      → let w' = (record_ack s d a w).1 in
        (acks_of w' ≡ ack_rows d a (acks_of w)) × (messages_of w' ≡ acked d a (messages_of w))
  unfolding record_ack Acknowledgements.create Messages.update_status
  record_ack_done d a w h = (
    ground (arith, sv.acknowledgements.insert_done (ack_row (prepare_ack d a)) w.acknowledgements),
    ground (
      arith,
      sv.messages.update_done (λ m. m.id == a.message_id)
          (with_status (map_ack_to_message_status a.status) d.now) w.messages,
    ),
  )

  -- The call ends before it writes anything, or it has found that the agent can acknowledge and
  -- goes on to write.
  ack_checked :
      (d : AckDraw) (tenant : Uuid) (given : Option Acknowledgement) (w : World sv)
      → let (r, w') = acknowledge_for_tenant s d tenant given w in
        ((is_ok r ≡ false) × (messages_of w' ≡ messages_of w) × (acks_of w' ≡ acks_of w))
        ⊎ ((a : Acknowledgement) × (check_ack given ≡ ok a)
            × IsAuthorised tenant a (messages_of w)
            × (acknowledge_for_tenant s d tenant given w
                ≡ record_ack s d a (Messages.get_by_id_for_tenant tenant a.message_id w).1))
  unfolding acknowledge_for_tenant
  ack_checked d tenant given w = elim (Bool-cases (s.repo && s.ack_repo)) [
    | inr off ↦ inl (ground (arith, off))
    | inl on ↦ elim (Result-cases (check_ack given)) [
      | inr (x, refused) ↦ inl (ground (arith, on, refused))
      | inl (a, accepted) ↦
          let same = get-rows tenant a.message_id w in
          elim (Result-cases (Messages.get_by_id_for_tenant tenant a.message_id w).0) [
            | inr (x, failed) ↦ inl (ground (arith, on, accepted, failed, same))
            | inl (none, missing) ↦ inl (ground (arith, on, accepted, missing, same))
            | inl (some m, found) ↦ elim (Bool-cases (message_has_recipient m a.agent_id)) [
              | inr stranger ↦ inl (ground (arith, on, accepted, found, stranger, same))
              | inl recipient ↦ inr (
                a,
                accepted,
                record {
                  message = m;
                  found = get_by_id_for_tenant-IsRead tenant a.message_id w m found;
                  recipient = message_has_recipient-In m a.agent_id recipient;
                },
                ground (arith, on, accepted, found, recipient),
              )
            ]
          ]
    ]
  ]

  -- An acknowledgement that was accepted: the agent is a recipient of a message of the tenant, the
  -- acknowledgement has a row, and the message has the status that belongs to it.
  pub acknowledge_for_tenant_done :
      (d : AckDraw) (tenant : Uuid) (given : Option Acknowledgement) (w : World sv)
      → (acknowledge_for_tenant s d tenant given w).0 ≡ ok tt
      → let w' = (acknowledge_for_tenant s d tenant given w).1 in
        (a : Acknowledgement) × (check_ack given ≡ ok a)
        × IsAuthorised tenant a (messages_of w)
        × (acks_of w' ≡ ack_rows d a (acks_of w))
        × (messages_of w' ≡ acked d a (messages_of w))
  acknowledge_for_tenant_done d tenant given w h = elim (ack_checked d tenant given w) [
    | inl (failed, _, _) ↦ absurd (ground (arith, failed, h))
    | inr (a, accepted, authorised, run) ↦
        let w₁ : World sv = (Messages.get_by_id_for_tenant tenant a.message_id w).1 in
        let same = get-rows tenant a.message_id w in
        let done = record_ack_done d a w₁ (sym (ap (λ p. p.0) run) ∙ h) in
        (
          a,
          accepted,
          authorised,
          ap (λ p. acks_of p.1) run ∙ done.0 ∙ ap (ack_rows d a) same.1,
          ap (λ p. messages_of p.1) run ∙ done.1 ∙ ap (acked d a) same.0,
        )
  ]

  -- Whatever the call returns: it has written nothing, or the agent is a recipient of the message
  -- and the message is one of the tenant.
  pub acknowledge_for_tenant_guarded :
      (d : AckDraw) (tenant : Uuid) (given : Option Acknowledgement) (w : World sv)
      → let w' = (acknowledge_for_tenant s d tenant given w).1 in
        ((messages_of w' ≡ messages_of w) × (acks_of w' ≡ acks_of w))
        ⊎ ((a : Acknowledgement) × (check_ack given ≡ ok a) × IsAuthorised tenant a (messages_of w))
  acknowledge_for_tenant_guarded d tenant given w = elim (ack_checked d tenant given w) [
    | inl (_, messages, acks) ↦ inl (messages, acks)
    | inr (a, accepted, authorised, _) ↦ inr (a, accepted, authorised)
  ]
