-- ===== src/Services/Table/Lookup.antt =====
-- Looking up a row that was inserted.
use mathlib.Core.Path.{subst}
use agentmsg.Prelude.{
  ℕ, ◌≡◌, ◌≢◌, ◌⊎◌, inl, inr, sym, ◌∙◌, ap, Bool, true, false, some, List, ◌∷◌, All, In, All_of_In,
  Option-cases, length, arith,
}
use agentmsg.Exec.{Error, ok, err, Result-cases}
use agentmsg.Services.Table.{Table}

longer : {A : Type 0} (x : A) (l : List A) → l ≢ x ∷ l
longer x l e = omega (arith, ap length e)

module _ {Row : Type 0} {key : Row → ℕ} (t : Table Row key) where
  -- An insert that reports no error was of a new key.
  pub insert_fresh :
      (r : Row) (s : t.Store) → (t.insert r s).0 ≡ ok tt → All (λ x. key x ≢ key r) (t.rows s)
  insert_fresh r s h = elim (t.insert_atomic r s) [
    | inl same ↦ absurd (longer r (t.rows s) (sym same ∙ t.insert_done r s h))
    | inr more ↦ more.1
  ]

  -- A query that holds of a new row, and only of rows with its key, finds that row or fails.
  pub get_inserted :
      (p : Row → Bool) (r : Row) (s : t.Store) (before : List Row)
      → t.rows s ≡ r ∷ before
      → All (λ x. key x ≢ key r) before
      → p r ≡ true
      → ((x : Row) → p x ≡ true → key x ≡ key r)
      → ((e : Error) × ((t.get p s).0 ≡ err e)) ⊎ ((t.get p s).0 ≡ ok (some r))
  get_inserted p r s before here fresh hit only = elim (Result-cases (t.get p s).0) [
    | inr failed ↦ inl failed
    | inl (found, given) ↦ inr (elim (Option-cases found) [
      | inl missing ↦
          let miss : All (λ x. p x ≡ false) (r ∷ before) =
            subst (All (λ x. p x ≡ false)) here (t.get_missing p s (given ∙ ap ok missing)) in
          let no : p r ≡ false = miss.0 in cc
      | inr (x, is) ↦
          let hits : (p x ≡ true) × In x (t.rows s) = t.get_found p s x (given ∙ ap ok is) in
          let place : In x (r ∷ before) = subst (In x) here hits.1 in
          let same : x ≡ r = elim place [
            | inl e ↦ e
            | inr deep ↦ absurd (All_of_In (λ y. key y ≢ key r) x before fresh deep (only x hits.0))
          ] in
          given ∙ ap ok is ∙ ap (λ y. ok (some y)) same
    ])
  ]
