-- ===== src/Engine/DeadLetter/Invariant.antt =====
-- The invariant of the dead letter table: no entry is retried more often than it allows, and
-- `processed_at` is set exactly on the entries that are done.
use agentmsg.Prelude.{
  ℕ, ◌≤◌, ◌≡◌, inl, inr, refl, sym, ◌∙◌, ap, All-both, Bool, true, not, List, [], ◌∷◌, String, All,
  All-map, In, is_some, arith, ◌==◌, ==_iff, ◌&&◌, pos, Bool-cases,
}
use agentmsg.Exec.{ok, Result-cases}
use agentmsg.Model.Scalars.{Uuid, Time}
use agentmsg.Model.Message.{Message}
use agentmsg.Model.DeadLetter.{DeadLetterEntry, is_pending}
use agentmsg.Services.Table.{update_rows}
use agentmsg.Services.Table.Rows.{Distinct, Distinct-eq, update_rows-All, update_rows-Distinct}
use agentmsg.Services.World.{Services, World}
use agentmsg.Repository.DeadLetters.{is_retryable, with_outcome, list_retryable, create_entry}
use agentmsg.Engine.DeadLetter.{
  DeadLetterQueue, new_entry, outcome_time, enqueue, retry_entry, retry_entries, process,
}
use agentmsg.Engine.DeadLetter.Retry.{verdict, retried, publishes, retry_entry-rows}

pub record IsSound (e : DeadLetterEntry) : Type 0 where
  pub bounded : e.retry_count ≤ e.max_retries
  pub stamped : is_some e.processed_at ≡ not (is_pending e.status)

-- A new entry is sound.
new_entry-IsSound :
    (k : ℕ) (now : Time) (fresh : Uuid) (m : Message) (reason : String)
    → IsSound (new_entry k now fresh m reason)
unfolding new_entry
new_entry-IsSound k now fresh m reason = ground arith

-- A retryable entry, and a row with its limit: the retried row is sound.
retried-IsSound :
    (published : Bool) (now : Time) (e r : DeadLetterEntry)
    → is_retryable e ≡ true
    → r.max_retries ≡ e.max_retries
    → IsSound (retried published now e r)
unfolding retried verdict is_retryable with_outcome outcome_time
retried-IsSound published now e r h same = ground arith

id-retried :
    (published : Bool) (now : Time) (e r : DeadLetterEntry) → (retried published now e r).id ≡ r.id
unfolding retried verdict with_outcome
id-retried published now e r = refl

max_retries-retried :
    (published : Bool) (now : Time) (e r : DeadLetterEntry)
    → (retried published now e r).max_retries ≡ r.max_retries
unfolding retried verdict with_outcome
max_retries-retried published now e r = refl

-- The rows that have the key of `e` have its limit.
abbrev HasLimitOf : DeadLetterEntry → DeadLetterEntry → Type 0
HasLimitOf e r = r.id ≡ e.id → r.max_retries ≡ e.max_retries

abbrev pub Rows : Type 0
Rows = List DeadLetterEntry

pub record IsSoundTable (rows : Rows) : Type 0 where
  pub sound : All IsSound rows
  pub distinct : Distinct (λ e. e.id) rows

module _ (published : Bool) (now : Time) (e : DeadLetterEntry) where
  abbrev after : Rows → Rows
  after rows = update_rows (λ r. r.id == e.id) (retried published now e) rows

  after-IsSoundTable :
      is_retryable e ≡ true
      → (rows : Rows) → All (HasLimitOf e) rows
      → IsSoundTable rows
      → IsSoundTable (after rows)
  after-IsSoundTable ready rows limit h = record {
    sound =
        update_rows-All (λ r. HasLimitOf e r × IsSound r) IsSound (λ r. r.id == e.id)
          (retried published now e) rows
          (λ r m hit p. retried-IsSound published now e r ready (p.0 ((==_iff r.id e.id).0 hit)))
          (λ r p. p.1) (All-both (HasLimitOf e) IsSound rows limit h.sound);
    distinct =
        update_rows-Distinct (λ r. r.id) (λ r. r.id == e.id) (retried published now e)
          (id-retried published now e) rows h.distinct;
  }

  after-HasLimitOf :
      (e' : DeadLetterEntry) (rows : Rows)
      → All (HasLimitOf e') rows
      → All (HasLimitOf e') (after rows)
  after-HasLimitOf e' rows h =
      update_rows-All (HasLimitOf e') (HasLimitOf e') (λ r. r.id == e.id) (retried published now e)
        rows
        (λ r m hit p q.
          max_retries-retried published now e r ∙ p (sym (id-retried published now e r) ∙ q))
        (λ r p. p) h

All-In :
    {P : DeadLetterEntry → Type 0} (rows : Rows)
    → ((r : DeadLetterEntry) → In r rows → P r)
    → All P rows
All-In [] f = tt
All-In (r ∷ rows) f = (f r (inl refl), All-In rows (λ x m. f x (inr m)))

-- An entry of the table gives all rows with its key its limit.
In-HasLimitOf :
    (e : DeadLetterEntry) (rows : Rows)
    → In e rows
    → Distinct (λ r. r.id) rows
    → All (HasLimitOf e) rows
In-HasLimitOf e rows m d = All-In rows (λ r n q.
    ap (λ (x : DeadLetterEntry). x.max_retries) (Distinct-eq (λ x. x.id) rows r e d n m q))

module _ ⦃sv : Services⦄ (q : DeadLetterQueue) (db : q.db ≡ true) where
  abbrev rows_of : World sv → Rows
  rows_of w = sv.dead_letters.rows w.dead_letters

  retry_entry-IsSoundTable :
      (now : Time) (e : DeadLetterEntry) (w : World sv)
      → is_retryable e ≡ true
      → All (HasLimitOf e) (rows_of w)
      → IsSoundTable (rows_of w)
      → IsSoundTable (rows_of (retry_entry q now e w).1)
  retry_entry-IsSoundTable now e w ready limit h = elim (retry_entry-rows q now e w db) [
    | inl same ↦ rw same h
    | inr more ↦
        rw more (after-IsSoundTable (publishes q e.payload w) now e ready (rows_of w) limit h)
  ]

  retry_entry-HasLimitOf :
      (now : Time) (e e' : DeadLetterEntry) (w : World sv)
      → All (HasLimitOf e') (rows_of w)
      → All (HasLimitOf e') (rows_of (retry_entry q now e w).1)
  retry_entry-HasLimitOf now e e' w h = elim (retry_entry-rows q now e w db) [
    | inl same ↦ rw same h
    | inr more ↦ rw more (after-HasLimitOf (publishes q e.payload w) now e e' (rows_of w) h)
  ]

  retry_entries-IsSoundTable :
      (now : Time) (es : List DeadLetterEntry) (w : World sv)
      → All (λ e. (is_retryable e ≡ true) × All (HasLimitOf e) (rows_of w)) es
      → IsSoundTable (rows_of w)
      → IsSoundTable (rows_of (retry_entries q now es w).1)
  unfolding retry_entries
  retry_entries-IsSoundTable now [] w k h = h
  retry_entries-IsSoundTable now (e ∷ es) w k h =
      retry_entries-IsSoundTable now es (retry_entry q now e w).1
        (All-map (λ e' p. (p.0, retry_entry-HasLimitOf now e e' w p.1)) es k.1)
        (retry_entry-IsSoundTable now e w k.0.0 k.0.1 h)

  listed :
      (es : List DeadLetterEntry) (w : World sv)
      → (list_retryable (pos 100) w).0 ≡ ok es
      → All (λ e. (is_retryable e ≡ true) × In e (rows_of w)) es
  unfolding list_retryable
  listed es w h = (sv.dead_letters.select_found _ w.dead_letters es h).0

  rows-list_retryable : (w : World sv) → rows_of (list_retryable (pos 100) w).1 ≡ rows_of w
  unfolding list_retryable
  rows-list_retryable w = sv.dead_letters.rows-select _ w.dead_letters

  -- A pass of the dead letter loop with a database keeps the table sound: identifiers are distinct,
  -- every entry is within its limit, and its time stamp is in step with its status. This holds
  -- whatever the services do.
  pub process-IsSoundTable :
      (now : Time) (w : World sv)
      → IsSoundTable (rows_of w)
      → IsSoundTable (rows_of (process q now w).1)
  unfolding process
  process-IsSoundTable now w h =
      let w₁ : World sv = (list_retryable (pos 100) w).1 in
      let h₁ : IsSoundTable (rows_of w₁) = rw rows-list_retryable h in
      elim (Bool-cases (q.db && q.redis)) [
        | inl on ↦ elim (Result-cases (list_retryable (pos 100) w).0) [
          | inl (es, found) ↦ ground (
            arith,
            on,
            found,
            retry_entries-IsSoundTable now es w₁
                (All-map
                  (λ e p.
                    (p.0, rw rows-list_retryable (In-HasLimitOf e (rows_of w) p.1 h.distinct)))
                  es (listed es w found))
                h₁,
          )
          | inr (x, failed) ↦ ground (arith, on, failed, h₁)
        ]
        | inr off ↦ ground (arith, off, h)
      ]

  rows-enqueue :
      (now : Time) (fresh : Uuid) (m : Message) (reason : String) (w : World sv)
      → let e = new_entry q.max_retries now fresh m reason in
        rows_of (enqueue q now fresh m reason w).1
        ≡ sv.dead_letters.rows (sv.dead_letters.insert e w.dead_letters).1
  unfolding enqueue create_entry
  rows-enqueue now fresh m reason w = rw db

  -- Taking in a new entry, with a database, keeps the table sound.
  pub enqueue-IsSoundTable :
      (now : Time) (fresh : Uuid) (m : Message) (reason : String) (w : World sv)
      → IsSoundTable (rows_of w)
      → IsSoundTable (rows_of (enqueue q now fresh m reason w).1)
  enqueue-IsSoundTable now fresh m reason w h =
      let e = new_entry q.max_retries now fresh m reason in
      elim (sv.dead_letters.insert_atomic e w.dead_letters) [
        | inl same ↦ rw (rows-enqueue now fresh m reason w) (rw same h)
        | inr more ↦ rw (rows-enqueue now fresh m reason w) (
            rw more.0 (record {
              sound = (new_entry-IsSound q.max_retries now fresh m reason, h.sound);
              distinct = (more.1, h.distinct);
            }))
      ]
