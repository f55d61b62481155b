-- ===== src/Engine/Worker/Outcomes.antt =====
-- What a worker does with one message, on every branch.
use mathlib.Core.List.{map-map, map-id}
use agentmsg.Prelude.{◌==◌, if◌then◌else◌, true, false, ◌≡◌, refl, List, [], ◌∷◌, map, arith}
use agentmsg.Exec.{Error, ok, err, when, ◌>>◌}
use agentmsg.Model.Scalars.{Time}
use agentmsg.Model.Message.{Message, MessageStatus}
use agentmsg.Services.Table.{update_rows}
use agentmsg.Services.World.{Services, World}
use agentmsg.Repository.Messages.{update_status, with_status}
use agentmsg.Engine.Channels.{route, publish_each}
use agentmsg.Engine.Channels.Published.{published, publish_each_done, publish_each_frame}
use agentmsg.Engine.DeadLetter.{is_empty}
use agentmsg.Engine.Worker.{MessageEngine, route_message}

module _ ⦃sv : Services⦄ where
  recipients-route : (m : Message) → map (λ r. r.recipient_id) (route m) ≡ m.recipient_ids
  unfolding route
  recipients-route m = simp (map-map, map-id)

  is_empty-map : {A B : Type 0} (f : A → B) (l : List A) → is_empty (map f l) ≡ is_empty l
  is_empty-map f [] = refl
  is_empty-map f (x ∷ l) = refl

  is_empty-route : (m : Message) → is_empty (route m) ≡ is_empty m.recipient_ids
  unfolding route
  is_empty-route m = is_empty-map _ m.recipient_ids

module _ ⦃sv : Services⦄ (e : MessageEngine) where
  -- `routeMessage` in terms of the recipients.
  pub route_message-recipients :
      (now : Time) (m : Message) (w : World sv)
      → route_message e now m w ≡ (
          if is_empty m.recipient_ids
          then (err Error.no_routes, w)
          else (do
            publish_each m.recipient_ids (sv.uuids.text m.id)
            when e.db (update_status now m.id MessageStatus.sent))
              w)
  unfolding route_message
  route_message-recipients now m w = rw (recipients-route, is_empty-route) (ground arith)

  -- Routing that reports no error, with a database: the message has recipients, its identifier was
  -- published to each of them, in order and to nobody else, and exactly the rows with its identifier
  -- have the status sent.
  pub route_sent :
      (now : Time) (m : Message) (w : World sv)
      → e.db ≡ true
      → (route_message e now m w).0 ≡ ok tt
      → let w' = (route_message e now m w).1 in
        (is_empty m.recipient_ids ≡ false)
        × (sv.channels.sent w'.channels
            ≡ published m.recipient_ids (sv.uuids.text m.id) (sv.channels.sent w.channels))
        × (sv.messages.rows w'.messages
            ≡ update_rows
                (λ r. r.id == m.id)
                (with_status MessageStatus.sent now)
                (sv.messages.rows w.messages))
  unfolding update_status
  route_sent now m w db = rw (route_message-recipients now m w) (
      ground (
        arith,
        publish_each_done m.recipient_ids (sv.uuids.text m.id) w,
        publish_each_frame m.recipient_ids (sv.uuids.text m.id) w,
        sv.messages.update_done (λ r. r.id == m.id) (with_status MessageStatus.sent now) w.messages,
      ))
