-- ===== src/Services/Memory/Tables.antt =====
-- A table in memory. `select` answers only when the rows that it holds stand in the order asked for.
use mathlib.Core.Path.{subst}
use agentmsg.Prelude.{
  ◌≡◌, ◌≢◌, ◌⊎◌, inl, inr, refl, Bool, true, false, ◌&&◌, Option, none, some, List, [], ◌∷◌, All,
  In, All-map, All-take, All-drop, length-take, length-drop, take, drop, ℤ, pos, negsuc, ℕ, any,
  filter, length, leb, ◌==◌, if◌then◌else◌, Bool-cases, arith,
}
use agentmsg.Services.Memory.Faults.{fails, rest, down}
use agentmsg.Exec.{Error, Result, ok, err, is_ok, ok_injective, Done}
use agentmsg.Services.Table.{
  Table, Query, Order, unordered, ascending, descending, Sorted, Returned, update_rows,
}

pub record Cells (Row : Type 0) : Type 0 where
  pub held : List Row
  pub faults : List Bool

some_of_some : {A : Type 0} {a b : A} → some a ≡ some b → a ≡ b
some_of_some h = cc

module _ {Row : Type 0} where
  abbrev pub first : (Row → Bool) → List Row → Option Row
  first p [] = none
  first p (r ∷ rs) = let rest = first p rs in if p r then some r else rest

  abbrev pub is_sorted : Order Row → List Row → Bool
  is_sorted unordered rs = true
  is_sorted (ascending key) (r ∷ s ∷ rs) = leb (key r) (key s) && is_sorted (ascending key) (s ∷ rs)
  is_sorted (descending key) (r ∷ s ∷ rs) =
      leb (key s) (key r) && is_sorted (descending key) (s ∷ rs)
  is_sorted _ _ = true

  pub is_sorted-Sorted : (o : Order Row) (rs : List Row) → is_sorted o rs ≡ true → Sorted o rs
  is_sorted-Sorted unordered rs h = tt
  is_sorted-Sorted (ascending key) [] h = tt
  is_sorted-Sorted (ascending key) (r ∷ []) h = tt
  is_sorted-Sorted (ascending key) (r ∷ s ∷ rs) h =
      ground (arith, is_sorted-Sorted (ascending key) (s ∷ rs))
  is_sorted-Sorted (descending key) [] h = tt
  is_sorted-Sorted (descending key) (r ∷ []) h = tt
  is_sorted-Sorted (descending key) (r ∷ s ∷ rs) h =
      ground (arith, is_sorted-Sorted (descending key) (s ∷ rs))

  pub first_found :
      (p : Row → Bool) (rs : List Row) (r : Row) → first p rs ≡ some r → (p r ≡ true) × In r rs
  first_found p [] r h = cc
  first_found p (x ∷ rs) r h = elim (Bool-cases (p x)) [
    | inl hit ↦ (ground arith, inl (ground arith))
    | inr miss ↦
        let deeper : (p r ≡ true) × In r rs = first_found p rs r (ground arith) in
        (deeper.0, inr deeper.1)
  ]

  pub first_missing :
      (p : Row → Bool) (rs : List Row) → first p rs ≡ none → All (λ r. p r ≡ false) rs
  first_missing p [] h = tt
  first_missing p (x ∷ rs) h = ground (arith, first_missing p rs)

  pub filter_found :
      (p : Row → Bool) (rs : List Row) → All (λ r. (p r ≡ true) × In r rs) (filter p rs)
  filter_found p [] = tt
  filter_found p (x ∷ rs) =
      let rest =
        All-map (λ r (h : (p r ≡ true) × In r rs). (h.0, inr h.1)) (filter p rs)
          (filter_found p rs) in
      elim (Bool-cases (p x)) [ inl hit ↦ rw hit ((hit, inl refl), rest) | inr miss ↦ rw miss rest ]

  -- `LIMIT` and `OFFSET`; `none` where the database refuses them.
  abbrev pub window : Option ℤ → Option ℤ → List Row → Option (List Row)
  window none none rs = some rs
  window none (some (pos o)) rs = some (drop o rs)
  window (some (pos k)) none rs = some (take k rs)
  window (some (pos k)) (some (pos o)) rs = some (take k (drop o rs))
  window _ _ _ = none

  pub window-Returned :
      (limit offset : Option ℤ) (rs ws : List Row)
      → window limit offset rs ≡ some ws
      → Returned limit offset (length rs) (length ws)
  window-Returned none none rs ws h = ground arith
  window-Returned none (some (pos o)) rs ws h = ground (arith, length-drop o rs)
  window-Returned (some (pos k)) none rs ws h = ground (arith, length-take k rs)
  window-Returned (some (pos k)) (some (pos o)) rs ws h =
      ground (arith, length-take k (drop o rs), length-drop o rs)
  window-Returned none (some (negsuc o)) rs ws h = cc
  window-Returned (some (negsuc k)) none rs ws h = cc
  window-Returned (some (negsuc k)) (some o) rs ws h = cc
  window-Returned (some (pos k)) (some (negsuc o)) rs ws h = cc

  pub window-All :
      (P : Row → Type 0) (limit offset : Option ℤ) (rs ws : List Row)
      → window limit offset rs ≡ some ws
      → All P rs
      → All P ws
  window-All P none none rs ws h a = subst (All P) (some_of_some h) a
  window-All P none (some (pos o)) rs ws h a = rw (← some_of_some h) (All-drop P o rs a)
  window-All P (some (pos k)) none rs ws h a = rw (← some_of_some h) (All-take P k rs a)
  window-All P (some (pos k)) (some (pos o)) rs ws h a =
      rw (← some_of_some h) (All-take P k (drop o rs) (All-drop P o rs a))
  window-All P none (some (negsuc o)) rs ws h a = cc
  window-All P (some (negsuc k)) none rs ws h a = cc
  window-All P (some (negsuc k)) (some o) rs ws h a = cc
  window-All P (some (pos k)) (some (negsuc o)) rs ws h a = cc

  pub not_any :
      (key : Row → ℕ) (k : ℕ) (rs : List Row)
      → any (λ x. key x == k) rs ≡ false
      → All (λ x. key x ≢ k) rs
  not_any key k [] h = tt
  not_any key k (x ∷ rs) h = (λ e. ground arith, not_any key k rs (ground arith))

module _ {Row : Type 0} where
  -- What is asked for is given only if it is in order.
  abbrev answer : Order Row → Option (List Row) → Result (List Row)
  answer o none = err down
  answer o (some rs) = if is_sorted o rs then ok rs else err down

  answer_given :
      (o : Order Row) (found : Option (List Row)) (rs : List Row)
      → answer o found ≡ ok rs
      → (found ≡ some rs) × (is_sorted o rs ≡ true)
  answer_given o none rs h = cc
  answer_given o (some ws) rs h = elim (Bool-cases (is_sorted o ws)) [
    | inl sorted ↦
        let e : ok ws ≡ ok rs = rw sorted at h in
        (cc, subst (λ l. is_sorted o l ≡ true) (cc) sorted)
    | inr unsorted ↦ let e : err down ≡ ok rs = rw unsorted at h in cc
  ]

module _ {Row : Type 0} (key : Row → ℕ) where
  abbrev pub get_cells : (Row → Bool) → Cells Row → Result (Option Row) × Cells Row
  get_cells p s = (ok (first p s.held), s)

  abbrev pub select_cells : Query Row → Cells Row → Result (List Row) × Cells Row
  select_cells q s = (answer q.order (window q.limit q.offset (filter q.wanted s.held)), s)

  abbrev pub insert_cells : Row → Cells Row → Done × Cells Row
  insert_cells r s =
      let t : Cells Row = record s { faults = rest s.faults } in
      if fails s.faults
      then (err down, t)
      else if any (λ x. key x == key r) s.held
      then (err Error.unique_violation, t)
      else (ok tt, record t { held = r ∷ s.held })

  abbrev pub update_cells : (Row → Bool) → (Row → Row) → Cells Row → Result ℕ × Cells Row
  update_cells p f s =
      let t : Cells Row = record s { faults = rest s.faults } in
      if fails s.faults
      then (err down, t)
      else (ok (length (filter p s.held)), record t { held = update_rows p f s.held })

  pub select_law :
      (q : Query Row) (s : Cells Row) (rs : List Row)
      → (select_cells q s).0 ≡ ok rs
      → All (λ r. (q.wanted r ≡ true) × In r s.held) rs
        × Sorted q.order rs
        × Returned q.limit q.offset (length (filter q.wanted s.held)) (length rs)
  select_law q s rs h =
      let hits = filter q.wanted s.held in
      let given = answer_given q.order (window q.limit q.offset hits) rs h in
      (
        window-All _ q.limit q.offset hits rs given.0 (filter_found q.wanted s.held),
        is_sorted-Sorted q.order rs given.1,
        window-Returned q.limit q.offset hits rs given.0,
      )

  pub insert_law :
      (r : Row) (s : Cells Row)
      → ((insert_cells r s).1.held ≡ s.held)
        ⊎ (((insert_cells r s).1.held ≡ r ∷ s.held) × All (λ x. key x ≢ key r) s.held)
  insert_law r s = elim (Bool-cases (any (λ x. key x == key r) s.held)) [
    | inl taken ↦ inl (ground arith)
    | inr free ↦ elim (Bool-cases (fails s.faults)) [
      | inl fault ↦ inl (ground arith)
      | inr works ↦ inr (ground arith, not_any key (key r) s.held free)
    ]
  ]

  pub insert_done_law :
      (r : Row) (s : Cells Row)
      → (insert_cells r s).0 ≡ ok tt
      → (insert_cells r s).1.held ≡ r ∷ s.held
  insert_done_law r s h = ground arith

  pub update_done_law :
      (p : Row → Bool) (f : Row → Row) (s : Cells Row)
      → is_ok (update_cells p f s).0 ≡ true
      → (update_cells p f s).1.held ≡ update_rows p f s.held
  update_done_law p f s h = ground arith

  pub update_count_law :
      (p : Row → Bool) (f : Row → Row) (s : Cells Row) (n : ℕ)
      → (update_cells p f s).0 ≡ ok n
      → n ≡ length (filter p s.held)
  update_count_law p f s n h = ground arith

  pub update_law :
      (p : Row → Bool) (f : Row → Row) (s : Cells Row)
      → ((update_cells p f s).1.held ≡ s.held)
        ⊎ ((update_cells p f s).1.held ≡ update_rows p f s.held)
  update_law p f s = ground arith

abbrev pub memory_table : {Row : Type 0} (key : Row → ℕ) → Table Row key
memory_table {Row} key = record {
  Store = Cells Row;
  rows = λ s. s.held;
  get = get_cells key;
  select = select_cells key;
  insert = insert_cells key;
  update = update_cells key;
  rows-get = λ p s. refl;
  get_found = λ p s r h. first_found p s.held r (ok_injective h);
  get_missing = λ p s h. first_missing p s.held (ok_injective h);
  rows-select = λ q s. refl;
  select_found = select_law key;
  insert_done = insert_done_law key;
  insert_atomic = insert_law key;
  update_done = update_done_law key;
  update_count = update_count_law key;
  update_atomic = update_law key;
}
