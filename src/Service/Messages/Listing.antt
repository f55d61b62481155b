-- ===== src/Service/Messages/Listing.antt =====
-- Lists of messages show a tenant its own messages only, and no more than the limit.

use agentmsg.Prelude.{
  ℕ, zero, suc, ◌≤◌, ℤ, pos, negsuc, ◌≡◌, inl, inr, Bool, true, some, List, All, All-map, In,
  length, ◌==◌, arith,
}
use agentmsg.Exec.{ok, Result-cases}
use agentmsg.Model.Scalars.{Uuid}
use agentmsg.Model.Message.{Message}
use agentmsg.Services.Table.{Query, Returned, descending}
use agentmsg.Services.World.{Services, World}
use agentmsg.Repository.Messages.{scan_all}
use agentmsg.Repository.Messages.Found.{IsRead, scan_all-rows}
use agentmsg.Repository.Messages
use agentmsg.Service.Messages.{MessageService, page_limit, list_by_tenant}

-- The query of a page, and the number of messages that the limit allows.
abbrev page : (Message → Bool) → ℤ → ℤ → Query Message
page p limit offset = record {
  wanted = p;
  order = descending (λ m. m.created_at);
  limit = some limit;
  offset = some offset;
}

abbrev pub bound : ℤ → ℕ
bound (pos zero) = 100
bound (pos (suc n)) = suc n
bound (negsuc n) = 100

Returned-bound :
    (limit offset : ℤ) (matches n : ℕ)
    → Returned (some (page_limit limit)) (some offset) matches n
    → n ≤ bound limit
unfolding page_limit
Returned-bound (pos zero) (pos o) matches n h = omega (arith, h)
Returned-bound (pos (suc k)) (pos o) matches n h = omega (arith, h)
Returned-bound (negsuc k) (pos o) matches n h = omega (arith, h)
Returned-bound (pos zero) (negsuc o) matches n h = absurd h
Returned-bound (pos (suc k)) (negsuc o) matches n h = absurd h
Returned-bound (negsuc k) (negsuc o) matches n h = absurd h

module _ ⦃sv : Services⦄ (s : MessageService) where
  abbrev rows_of : World sv → List Message
  rows_of w = sv.messages.rows w.messages

  -- A page of a tenant's messages: each is read from a row of that tenant, and there are at most as
  -- many as the limit, which is 100 where the caller gives none.
  pub list_by_tenant-IsRead :
      (tenant : Uuid) (limit offset : ℤ) (w : World sv) (ms : List Message)
      → (list_by_tenant s tenant limit offset w).0 ≡ ok ms
      → All (IsRead (λ m. m.tenant_id == tenant) (rows_of w)) ms × (length ms ≤ bound limit)
  unfolding list_by_tenant Messages.list_by_tenant
  list_by_tenant-IsRead tenant limit offset w ms h =
      let p : Message → Bool = λ m. m.tenant_id == tenant in
      let q = page p (page_limit limit) offset in
      elim (Result-cases (sv.messages.select q w.messages).0) [
        | inr (x, failed) ↦ ground (arith, failed)
        | inl (rows, given) ↦
            let (hits, _, count) = sv.messages.select_found q w.messages rows given in
            let (read, same) =
              scan_all-rows (λ r. (p r ≡ true) × In r (rows_of w)) rows ms (ground (arith, given))
                hits in
            let some_rows = Returned-bound limit offset _ (length rows) count in
            (
              All-map
                  (λ m (r, (hit, place), decoded). record {
                    row = r;
                    stored = place;
                    wanted = hit;
                    decoded = decoded;
                  })
                  ms read,
              omega (arith, same, some_rows),
            )
      ]
