-- ===== src/Services/Table/Rows.antt =====
-- Predicates on all rows of a table, under the statements.
use agentmsg.Prelude.{
  ℕ, ◌≡◌, ◌≢◌, inl, inr, refl, sym, ◌∙◌, ap, All_of_In, Bool, true, List, [], ◌∷◌, All, In,
  if◌then◌else◌, Bool-cases,
}
use agentmsg.Services.Table.{update_rows}

module _ {Row : Type 0} where
  -- `f` keeps `P` on the rows that it is applied to.
  pub update_rows-All :
      (P Q : Row → Type 0) (p : Row → Bool) (f : Row → Row) (rs : List Row)
      → ((r : Row) → In r rs → p r ≡ true → P r → Q (f r))
      → ((r : Row) → P r → Q r)
      → All P rs
      → All Q (update_rows p f rs)
  update_rows-All P Q p f [] k c h = tt
  update_rows-All P Q p f (r ∷ rs) k c h =
      let others : All Q (update_rows p f rs) =
        update_rows-All P Q p f rs (λ x m. k x (inr m)) c h.1 in
      elim (Bool-cases (p r)) [
        | inl hit ↦ rw hit (k r (inl refl) hit h.0, others)
        | inr miss ↦ rw miss (c r h.0, others)
      ]

  -- Rows with pairwise different keys.
  abbrev pub Distinct : (Row → ℕ) → List Row → Type 0
  Distinct key [] = Unit
  Distinct key (r ∷ rs) = All (λ x. key x ≢ key r) rs × Distinct key rs

  module _ (key : Row → ℕ) (p : Row → Bool) (f : Row → Row)
      (same : (r : Row) → key (f r) ≡ key r) where
    changed : Row → Row
    changed r = if p r then f r else r

    key-changed : (r : Row) → key (changed r) ≡ key r
    unfolding changed
    key-changed r = elim (Bool-cases (p r)) [ inl hit ↦ rw hit (same r) | inr miss ↦ rw miss ]

    pub update_rows-Distinct : (rs : List Row) → Distinct key rs → Distinct key (update_rows p f rs)
    unfolding changed
    update_rows-Distinct [] h = tt
    update_rows-Distinct (r ∷ rs) h = (
      update_rows-All (λ x. key x ≢ key r) (λ x. key x ≢ key (changed r)) p f rs
          (λ x m hit ne e. ne (sym (same x) ∙ e ∙ key-changed r)) (λ x ne e. ne (e ∙ key-changed r))
          h.0,
      update_rows-Distinct rs h.1,
    )

  -- With distinct keys a key determines its row.
  pub Distinct-eq :
      (key : Row → ℕ) (rs : List Row) (a b : Row)
      → Distinct key rs
      → In a rs
      → In b rs
      → key a ≡ key b
      → a ≡ b
  Distinct-eq key [] a b h m n e = elim m [ ]
  Distinct-eq key (r ∷ rs) a b h (inl p) (inl q) e = p ∙ sym q
  Distinct-eq key (r ∷ rs) a b h (inl p) (inr n) e =
      absurd (All_of_In (λ x. key x ≢ key r) b rs h.0 n (sym e ∙ ap key p))
  Distinct-eq key (r ∷ rs) a b h (inr m) (inl q) e =
      absurd (All_of_In (λ x. key x ≢ key r) a rs h.0 m (e ∙ ap key q))
  Distinct-eq key (r ∷ rs) a b h (inr m) (inr n) e = Distinct-eq key rs a b h.1 m n e
