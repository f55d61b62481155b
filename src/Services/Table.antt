-- ===== src/Services/Table.antt =====
-- One table of the database, as the statements of internal/repository use it. The state is hidden:
-- it may hold connections, locks and other tables. `rows` is what the table holds. A call may fail
-- for any reason; a statement that changes rows is atomic, so one that reports an error was applied
-- as a whole or not at all.
pub mod Lookup
pub mod Rows
use Prim.Native.Nat.{min}
use agentmsg.Prelude.{
  ℕ, ◌-◌, ◌≤◌, ℤ, pos, ◌≡◌, ◌≢◌, ◌⊎◌, Bool, true, false, Option, none, some, List, [], ◌∷◌, All, In,
  filter, length, if◌then◌else◌,
}
use agentmsg.Exec.{Result, ok, is_ok, Done}

pub data Order (Row : Type 0) : Type 0 where
  unordered : Order Row
  ascending descending : (Row → ℕ) → Order Row

-- `SELECT … WHERE wanted ORDER BY order LIMIT limit OFFSET offset`; `none` is no such clause.
pub record Query (Row : Type 0) : Type 0 where
  pub wanted : Row → Bool
  pub order : Order Row
  pub limit : Option ℤ
  pub offset : Option ℤ

-- Every row stands in order with the one after it.
abbrev pub Sorted : {Row : Type 0} → Order Row → List Row → Type 0
Sorted unordered rs = Unit
Sorted (ascending key) (r ∷ s ∷ rs) = (key r ≤ key s) × Sorted (ascending key) (s ∷ rs)
Sorted (descending key) (r ∷ s ∷ rs) = (key s ≤ key r) × Sorted (descending key) (s ∷ rs)
Sorted _ _ = Unit

-- `n` rows come back out of `matches`. A negative `LIMIT` or `OFFSET` is an error, so no rows come
-- back at all.
abbrev pub Returned : Option ℤ → Option ℤ → (matches : ℕ) → ℕ → Type 0
Returned none none matches n = n ≡ matches
Returned none (some (pos o)) matches n = n ≡ matches - o
Returned (some (pos k)) none matches n = n ≡ min k matches
Returned (some (pos k)) (some (pos o)) matches n = n ≡ min k (matches - o)
Returned _ _ _ _ = ⊥

-- `UPDATE … SET change WHERE wanted`, on the rows.
abbrev pub update_rows : {Row : Type 0} → (Row → Bool) → (Row → Row) → List Row → List Row
update_rows wanted change [] = []
update_rows wanted change (r ∷ rs) =
    (if wanted r then change r else r) ∷ update_rows wanted change rs

-- `key` is the primary key.
pub record Table (Row : Type 0) (key : Row → ℕ) : Type 1 where
  pub Store : Type 0
  pub rows : Store → List Row
  -- `GetContext`: a row, or `sql.ErrNoRows`, which is `none`.
  pub get : (Row → Bool) → Store → Result (Option Row) × Store
  pub select : Query Row → Store → Result (List Row) × Store
  pub insert : Row → Store → Done × Store
  -- `ExecContext` of an update, with the number of rows affected.
  pub update : (Row → Bool) → (Row → Row) → Store → Result ℕ × Store
  pub rows-get : (p : Row → Bool) (s : Store) → rows (get p s).1 ≡ rows s
  pub get_found :
      (p : Row → Bool) (s : Store) (r : Row)
      → (get p s).0 ≡ ok (some r)
      → (p r ≡ true) × In r (rows s)
  pub get_missing :
      (p : Row → Bool) (s : Store) → (get p s).0 ≡ ok none → All (λ r. p r ≡ false) (rows s)
  pub rows-select : (q : Query Row) (s : Store) → rows (select q s).1 ≡ rows s
  pub select_found :
      (q : Query Row) (s : Store) (rs : List Row)
      → (select q s).0 ≡ ok rs
      → All (λ r. (q.wanted r ≡ true) × In r (rows s)) rs
        × Sorted q.order rs
        × Returned q.limit q.offset (length (filter q.wanted (rows s))) (length rs)
  pub insert_done :
      (r : Row) (s : Store) → (insert r s).0 ≡ ok tt → rows (insert r s).1 ≡ r ∷ rows s
  pub insert_atomic :
      (r : Row) (s : Store)
      → (rows (insert r s).1 ≡ rows s)
        ⊎ ((rows (insert r s).1 ≡ r ∷ rows s) × All (λ x. key x ≢ key r) (rows s))
  pub update_done :
      (p : Row → Bool) (f : Row → Row) (s : Store)
      → is_ok (update p f s).0 ≡ true
      → rows (update p f s).1 ≡ update_rows p f (rows s)
  pub update_count :
      (p : Row → Bool) (f : Row → Row) (s : Store) (n : ℕ)
      → (update p f s).0 ≡ ok n
      → n ≡ length (filter p (rows s))
  pub update_atomic :
      (p : Row → Bool) (f : Row → Row) (s : Store)
      → (rows (update p f s).1 ≡ rows s) ⊎ (rows (update p f s).1 ≡ update_rows p f (rows s))
