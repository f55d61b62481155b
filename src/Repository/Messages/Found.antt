-- ===== src/Repository/Messages/Found.antt =====
-- What the lookups and the lists of messages return, in terms of the rows.
use agentmsg.Prelude.{
  ◌≡◌, inl, inr, length, refl, ap, ◌∙◌, Bool, true, ◌&&◌, Option, none, some, List, [], ◌∷◌, All,
  In, ◌==◌, arith,
}
use agentmsg.Exec.{ok, ok_injective, Result-cases}
use agentmsg.Model.Scalars.{Uuid}
use agentmsg.Model.Message.{Message, scan_recipients}
use agentmsg.Services.World.{Services, World}
use agentmsg.Repository.Messages.{scan_found, scan_all, get_by_id_for_tenant}

-- `m` is what a row of `rows` that passes `p` stands for.
pub record IsRead (p : Message → Bool) (rows : List Message) (m : Message) : Type 0 where
  pub row : Message
  pub stored : In row rows
  pub wanted : p row ≡ true
  pub decoded : scan_recipients row ≡ ok m

scan_found-row :
    (found : Option Message) (m : Message)
    → scan_found found ≡ ok (some m)
    → (row : Message) × (found ≡ some row) × (scan_recipients row ≡ ok m)
unfolding scan_found
scan_found-row none m h = cc
scan_found-row (some row) m h = elim (Result-cases (scan_recipients row)) [
  | inl (n, decoded) ↦ (row, refl, ground (arith, decoded))
  | inr (x, failed) ↦ ground (arith, failed)
]

pub scan_all-rows :
    (P : Message → Type 0) (rows ms : List Message)
    → scan_all rows ≡ ok ms
    → All P rows
    → All (λ m. (row : Message) × P row × (scan_recipients row ≡ ok m)) ms
      × (length ms ≡ length rows)
unfolding scan_all
scan_all-rows P [] ms h k = rw (← ok_injective h) (tt, refl)
scan_all-rows P (r ∷ rs) ms h k = elim (Result-cases (scan_recipients r)) [
  | inr (x, failed) ↦ ground (arith, failed)
  | inl (m, decoded) ↦ elim (Result-cases (scan_all rs)) [
    | inr (x, failed) ↦ ground (arith, decoded, failed)
    | inl (ms', more) ↦
        let (others, same) = scan_all-rows P rs ms' more k.1 in
        let e : m ∷ ms' ≡ ms = ok_injective (ground (arith, decoded, more)) in
        rw (← e) (((r, k.0, decoded), others), omega (arith, same))
  ]
]

-- The condition of a lookup for a tenant.
abbrev pub is_wanted : Uuid → Uuid → Message → Bool
is_wanted tenant id m = (m.id == id) && (m.tenant_id == tenant)

module _ ⦃sv : Services⦄ where
  abbrev rows_of : World sv → List Message
  rows_of w = sv.messages.rows w.messages

  pub get_by_id_for_tenant-IsRead :
      (tenant id : Uuid) (w : World sv) (m : Message)
      → (get_by_id_for_tenant tenant id w).0 ≡ ok (some m)
      → IsRead (is_wanted tenant id) (rows_of w) m
  unfolding get_by_id_for_tenant
  get_by_id_for_tenant-IsRead tenant id w m h =
      elim (Result-cases (sv.messages.get (is_wanted tenant id) w.messages).0) [
        | inr (x, failed) ↦ ground (arith, failed)
        | inl (found, given) ↦
            let (row, is, decoded) = scan_found-row found m (ground (arith, given)) in
            let hit =
              sv.messages.get_found (is_wanted tenant id) w.messages row (given ∙ ap ok is) in
            record { row = row; stored = hit.1; wanted = hit.0; decoded = decoded }
      ]
