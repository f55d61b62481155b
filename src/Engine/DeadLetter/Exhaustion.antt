-- ===== src/Engine/DeadLetter/Exhaustion.antt =====
-- Retries come to an end: each one that is recorded counts, and the count is limited.
use mathlib.Core.Path.{subst}
use agentmsg.Exec.{is_ok}
use agentmsg.Prelude.{
  ℕ, suc, ◌+◌, ◌≤◌, ◌≡◌, sym, ap, ◌∙◌, inl, inr, refl, Bool, true, List, [], ◌∷◌, In, ◌==◌, ==_iff,
  if◌then◌else◌, Bool-cases, arith,
}
use agentmsg.Model.Scalars.{Time}
use agentmsg.Model.DeadLetter.{DeadLetterEntry}
use agentmsg.Services.Table.{update_rows}
use agentmsg.Services.Table.Rows.{Distinct, Distinct-eq}
use agentmsg.Services.World.{Services, World}
use agentmsg.Repository.DeadLetters.{is_retryable, with_outcome}
use agentmsg.Engine.DeadLetter.{DeadLetterQueue, retry_entry}
use agentmsg.Engine.DeadLetter.Retry.{verdict, retried, publishes, retry_entry_recorded}

-- A row after an update was a row before it, changed or not.
update_rows-In :
    {Row : Type 0} (p : Row → Bool) (f : Row → Row) (rs : List Row) (y : Row)
    → In y (update_rows p f rs)
    → (x : Row) × In x rs × (y ≡ (if p x then f x else x))
update_rows-In p f [] y h = elim h [ ]
update_rows-In p f (r ∷ rs) y (inl same) = (r, inl refl, same)
update_rows-In p f (r ∷ rs) y (inr later) =
    let (x, place, e) = update_rows-In p f rs y later in (x, inr place, e)

retried_counts :
    (published : Bool) (now : Time) (e : DeadLetterEntry)
    → is_retryable e ≡ true
    → (e.retry_count + 1 ≤ (retried published now e e).retry_count)
      × ((retried published now e e).retry_count ≤ e.max_retries)
      × ((retried published now e e).max_retries ≡ e.max_retries)
unfolding retried verdict with_outcome is_retryable
retried_counts published now e h = ground (arith, h)

module _ ⦃sv : Services⦄ (q : DeadLetterQueue) where
  abbrev pub letters : World sv → List DeadLetterEntry
  letters w = sv.dead_letters.rows w.dead_letters

  -- The database takes updates of the entry.
  abbrev pub IsUpdatable : DeadLetterEntry → World sv → Type 0
  IsUpdatable e w =
      (f : DeadLetterEntry → DeadLetterEntry)
      → is_ok (sv.dead_letters.update (λ r. r.id == e.id) f w.dead_letters).0 ≡ true

  -- `n` retries of an entry, in as many worlds. In each of them the identifiers are distinct, the
  -- entry stands in the table as the retry before has left it, a pass of the loop would select it,
  -- and the database takes its update. The rest of the program may do anything to other rows in
  -- between.
  pub data RetryRun : ℕ → DeadLetterEntry → Type 0 where
    no_more : (e : DeadLetterEntry) → RetryRun 0 e
    retry :
        (n : ℕ) (e e' : DeadLetterEntry) (w : World sv) (now : Time)
        → Distinct (λ r. r.id) (letters w)
        → In e (letters w)
        → is_retryable e ≡ true
        → IsUpdatable e w
        → In e' (letters (retry_entry q now e w).1)
        → e'.id ≡ e.id
        → RetryRun n e'
        → RetryRun (suc n) e

  -- The row that a retry leaves under the entry's identifier.
  retry_entry-retried :
      (now : Time) (e e' : DeadLetterEntry) (w : World sv)
      → q.db ≡ true
      → Distinct (λ r. r.id) (letters w)
      → In e (letters w)
      → IsUpdatable e w
      → In e' (letters (retry_entry q now e w).1)
      → e'.id ≡ e.id
      → e' ≡ retried (publishes q e.payload w) now e e
  retry_entry-retried now e e' w db distinct place updatable place' same =
      let f = retried (publishes q e.payload w) now e in
      let marked = subst (In e') (retry_entry_recorded q now e w db updatable) place' in
      let (x, there, is) = update_rows-In (λ r. r.id == e.id) f (letters w) e' marked in
      elim (Bool-cases (x.id == e.id)) [
        | inl hit ↦
            let one : x ≡ e =
              Distinct-eq (λ r. r.id) (letters w) x e distinct there place
                ((==_iff x.id e.id).0 hit) in
            is ∙ rw hit (ap f one)
        | inr miss ↦
            let kept : e' ≡ x = is ∙ rw miss refl in
            absurd (ground (arith, miss, (==_iff x.id e.id).1 (sym (ap (λ r. r.id) kept) ∙ same)))
      ]

  -- With a database, a dead letter is retried at most as often as it has retries left, however the
  -- retries end, when the database takes the update after each of them and nothing else changes its
  -- row: the retries made and the count that it had before are together at most its limit.
  pub retries_end :
      {n : ℕ} {e : DeadLetterEntry}
      → q.db ≡ true
      → RetryRun n e
      → e.retry_count ≤ e.max_retries
      → e.retry_count + n ≤ e.max_retries
  retries_end db (RetryRun.no_more e) bounded = omega (arith, bounded)
  retries_end db (RetryRun.retry n e e' w now distinct place ready updatable place' same rest)
        bounded =
      let p : Bool = publishes q e.payload w in
      let left : e' ≡ retried p now e e =
        retry_entry-retried now e e' w db distinct place updatable place' same in
      let (more, within, limit) = retried_counts p now e ready in
      let count : e'.retry_count ≡ (retried p now e e).retry_count = ap (λ r. r.retry_count) left in
      let max : e'.max_retries ≡ e.max_retries = ap (λ r. r.max_retries) left ∙ limit in
      let after : e'.retry_count + n ≤ e'.max_retries =
        retries_end db rest (omega (arith, count, max, within)) in
      omega (arith, after, count, max, more)
