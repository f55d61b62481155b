-- ===== src/Api/Batch/Settled.antt =====
-- What the results of a batch say about the messages.
use Prim.Native.String.{◌++◌ as str_append}
use mathlib.Core.Path.{subst}
use agentmsg.Prelude.{
  ℕ, ◌+◌, ◌≡◌, ◌⊎◌, inl, inr, refl, sym, ap, ◌∙◌, ◌&&◌, Option, none, some, String, List, [], ◌∷◌,
  In, Bool-cases, Option-cases, arith,
}
use agentmsg.Exec.{is_ok, ok_injective, error_text, Done-cases, Result-cases}
use agentmsg.Model.Scalars.{Uuid, Bytes, uuid_nil}
use agentmsg.Model.Message.{Message, SendResult}
use agentmsg.Services.World.{QueueItem, Services, World}
use agentmsg.Repository.Pending.{push_pending}
use agentmsg.Repository.Messages
use agentmsg.Service.Messages.{MessageService, SendDraw, check_message, prepare, send}
use agentmsg.Service.Messages.Sending.{
  rows_of, items_of, stored, queued, send_done, check_message_same,
}
use agentmsg.Api.Messages.{MessageRequest, serialize_content, build_message}
use agentmsg.Api.Batch.{BatchDraw, failed_with, id_after_send, send_one, send_each}

-- At most one element more.
abbrev Grown : {A : Type 0} → List A → List A → Type 0
Grown {A} xs ys = (ys ≡ xs) ⊎ ((x : A) × (ys ≡ x ∷ xs))

In-Grown : {A : Type 0} (xs ys : List A) (a : A) → Grown xs ys → In a xs → In a ys
In-Grown xs ys a (inl same) m = rw same m
In-Grown xs ys a (inr (x, more)) m = rw more (inr m)

module _ ⦃sv : Services⦄ (s : MessageService) where
  -- Whatever `Send` returns, no row and no item is lost.
  send_grows :
      (d : SendDraw) (given : Option Message) (w : World sv)
      → Grown (rows_of s w) (rows_of s (send s d given w).1)
        × Grown (items_of s w) (items_of s (send s d given w).1)
  unfolding send push_pending Messages.create
  send_grows d given w = elim (Result-cases (check_message given)) [
    | inr (x, refused) ↦ (inl (ground (arith, refused)), inl (ground (arith, refused)))
    | inl (m, accepted) ↦ elim (Bool-cases (s.repo && s.redis)) [
      | inr off ↦ (inl (ground (arith, off)), inl (ground (arith, off)))
      | inl on ↦
          let row : Message = stored s d m in
          let item : QueueItem = queued s d m in
          elim (Done-cases (sv.messages.insert row w.messages).0) [
            | inr (x, failed) ↦ (
              elim (sv.messages.insert_atomic row w.messages) [
                | inl same ↦ inl (ground (arith, on, accepted, failed, same))
                | inr (more, _) ↦ inr (row, ground (arith, on, accepted, failed, more))
              ],
              inl (ground (arith, on, accepted, failed)),
            )
            | inl inserted ↦ (
              inr (
                row,
                ground (arith, on, accepted, inserted, sv.messages.insert_done row w.messages),
              ),
              elim (sv.pending.lpush_atomic item w.pending) [
                | inl same ↦ inl (ground (arith, on, accepted, inserted, same))
                | inr more ↦ inr (item, ground (arith, on, accepted, inserted, more))
              ],
            )
          ]
    ]
  ]

module _ ⦃sv : Services⦄ (s : MessageService) (sender tenant : Uuid) (trace : String) where
  abbrev built : BatchDraw → MessageRequest → Bytes × String → Message
  built d rq c = build_message d.conversation sender tenant trace rq c.0 c.1

  -- The result says that there was an error; or that the message is pending, and then the message
  -- of the request has its row in the table and its item on the queue.
  abbrev pub IsSettled : World sv → BatchDraw → MessageRequest → SendResult → Type 0
  IsSettled w d rq r =
      ((text : String) × (r.status ≡ str_append "error: " text))
      ⊎ ((c : Bytes × String) × (serialize_content rq.content ≡ some c)
          × (r ≡ record {
            message_id = (prepare d.sending (built d rq c)).id;
            status = "pending";
            delivered_at = none;
          })
          × In (stored s d.sending (built d rq c)) (rows_of s w)
          × In (queued s d.sending (built d rq c)) (items_of s w))

  -- One result for each message, in order.
  abbrev pub AllSettled :
      World sv → (ℕ → BatchDraw) → ℕ → List MessageRequest → List SendResult → Type 0
  AllSettled w draws n [] [] = Unit
  AllSettled w draws n [] (r ∷ rs) = ⊥
  AllSettled w draws n (rq ∷ rqs) [] = ⊥
  AllSettled w draws n (rq ∷ rqs) (r ∷ rs) =
      IsSettled w (draws n) rq r × AllSettled w draws (n + 1) rqs rs

  -- The message of a request is settled, and no row and no item is lost.
  abbrev OneSettled : BatchDraw → MessageRequest → World sv → SendResult × World sv → Type 0
  OneSettled d rq w p =
      IsSettled p.1 d rq p.0
      × Grown (rows_of s w) (rows_of s p.1)
      × Grown (items_of s w) (items_of s p.1)

  send_one-OneSettled :
      (d : BatchDraw) (rq : MessageRequest) (w : World sv)
      → OneSettled d rq w (send_one s d sender tenant trace rq w)
  unfolding send_one
  send_one-OneSettled d rq w = elim (Option-cases (serialize_content rq.content)) [
    | inl missing ↦
        let e : send_one s d sender tenant trace rq w
            ≡ (failed_with uuid_nil "content is required", w) =
          ground (arith, missing) in
        subst (OneSettled d rq w) (sym e) ((inl ("content is required", refl), inl refl, inl refl))
    | inr (c, given) ↦
        let m : Message = built d rq c in
        let w' : World sv = (send s d.sending (some m) w).1 in
        let grown = send_grows s d.sending (some m) w in
        elim (Result-cases (send s d.sending (some m) w).0) [
          | inr (x, failed) ↦
              let e : send_one s d sender tenant trace rq w
                  ≡ (failed_with (id_after_send s d.sending m) (error_text x), w') =
                ground (arith, given, failed) in
              subst (OneSettled d rq w) (sym e) ((inl (error_text x, refl), grown.0, grown.1))
          | inl (result, done) ↦
              let (n, accepted, answered, row, item) =
                send_done s d.sending (some m) w (ap is_ok done) in
              let same : n ≡ m = check_message_same s m n accepted in
              let reply : Message → SendResult = λ x. record {
                message_id = (prepare d.sending x).id;
                status = "pending";
                delivered_at = none;
              } in
              let e : send_one s d sender tenant trace rq w ≡ (result, w') =
                ground (arith, given, done) in
              let run : result ≡ reply m = ok_injective (sym done ∙ answered) ∙ ap reply same in
              let stored_row : rows_of s w' ≡ stored s d.sending m ∷ rows_of s w =
                subst (λ x. rows_of s w' ≡ stored s d.sending x ∷ rows_of s w) same row in
              let queued_item : items_of s w' ≡ queued s d.sending m ∷ items_of s w =
                subst (λ x. items_of s w' ≡ queued s d.sending x ∷ items_of s w) same item in
              subst (OneSettled d rq w) (sym e) (
                (
                  inr (c, given, run, rw stored_row (inl refl), rw queued_item (inl refl)),
                  grown.0,
                  grown.1,
                ))
        ]
  ]

  -- No row and no item is lost.
  abbrev pub Keeps : World sv → World sv → Type 0
  Keeps w w' =
      ((x : Message) → In x (rows_of s w) → In x (rows_of s w'))
      × ((x : QueueItem) → In x (items_of s w) → In x (items_of s w'))

  keep-IsSettled :
      (w w' : World sv) (d : BatchDraw) (rq : MessageRequest) (r : SendResult)
      → Keeps w w'
      → IsSettled w d rq r
      → IsSettled w' d rq r
  keep-IsSettled w w' d rq r k (inl failed) = inl failed
  keep-IsSettled w w' d rq r k (inr (c, given, run, row, item)) =
      inr (c, given, run, k.0 _ row, k.1 _ item)

  pub send_each-AllSettled :
      (draws : ℕ → BatchDraw) (n : ℕ) (rqs : List MessageRequest) (w : World sv)
      → let (rs, w') = send_each s draws n sender tenant trace rqs w in
        AllSettled w' draws n rqs rs × Keeps w w'
  unfolding send_each
  send_each-AllSettled draws n [] w = (tt, (λ x m. m, λ x m. m))
  send_each-AllSettled draws n (rq ∷ rqs) w =
      let (r, w₁) = send_one s (draws n) sender tenant trace rq w in
      let (rs, w₂) = send_each s draws (n + 1) sender tenant trace rqs w₁ in
      let (settled, rows, items) = send_one-OneSettled (draws n) rq w in
      let (all, kept) = send_each-AllSettled draws (n + 1) rqs w₁ in
      (
        (keep-IsSettled w₁ w₂ (draws n) rq r kept settled, all),
        (
          λ x m. kept.0 x (In-Grown (rows_of s w) (rows_of s w₁) x rows m),
          λ x m. kept.1 x (In-Grown (items_of s w) (items_of s w₁) x items m),
        ),
      )
