-- ===== src/Service/Tokens/Parts.antt =====
-- Splitting a token at its dots, and comparing signatures.
use agentmsg.Prelude.{
  ℕ, ◌≡◌, ◌≢◌, ◌↔◌, inl, inr, refl, sym, ap, ◌∙◌, true, false, List, [], ◌∷◌, ◌++◌, All, ◌==◌,
  ==_iff, Bool-cases, arith,
}
use agentmsg.Model.Scalars.{Bytes}
use agentmsg.Service.Tokens.{dot, split_dots, bytes_eq}

-- The parts with dots between them.
unfoldable pub join_dots : Bytes × List Bytes → Bytes
join_dots (p, []) = p
join_dots (p, q ∷ qs) = p ++ dot ∷ join_dots (q, qs)

join_dots-cons :
    (b : ℕ) (p : Bytes) (ps : List Bytes) → join_dots (b ∷ p, ps) ≡ b ∷ join_dots (p, ps)
unfolding join_dots
join_dots-cons b p [] = refl
join_dots-cons b p (q ∷ qs) = refl

split_at_dot :
    (b : ℕ) (bs : Bytes)
    → (b == dot) ≡ true
    → split_dots (b ∷ bs) ≡ ([], (split_dots bs).0 ∷ (split_dots bs).1)
unfolding split_dots
split_at_dot b bs h = ground (arith, h)

split_plain :
    (b : ℕ) (bs : Bytes)
    → (b == dot) ≡ false
    → split_dots (b ∷ bs) ≡ (b ∷ (split_dots bs).0, (split_dots bs).1)
unfolding split_dots
split_plain b bs h = ground (arith, h)

plain : (b : ℕ) → b ≢ dot → (b == dot) ≡ false
plain b h = elim (Bool-cases (b == dot)) [
  | inl hit ↦ absurd (h ((==_iff b dot).0 hit))
  | inr miss ↦ miss
]

-- Splitting loses nothing.
pub join_dots-split_dots : (t : Bytes) → join_dots (split_dots t) ≡ t
unfolding join_dots
join_dots-split_dots [] = unfold split_dots in refl
join_dots-split_dots (b ∷ bs) = elim (Bool-cases (b == dot)) [
  | inl hit ↦
      rw (split_at_dot b bs hit) (
        ap (λ l. dot ∷ l) (join_dots-split_dots bs) ∙ ap (λ x. x ∷ bs) (sym ((==_iff b dot).0 hit)))
  | inr miss ↦ rw (split_plain b bs miss) (
      join_dots-cons b (split_dots bs).0 (split_dots bs).1
      ∙ ap (λ l. b ∷ l) (join_dots-split_dots bs))
]

-- A part without dots is split off whole.
pub split_dots-plain : (a : Bytes) → All (λ x. x ≢ dot) a → split_dots a ≡ (a, [])
split_dots-plain [] h = unfold split_dots in refl
split_dots-plain (b ∷ bs) h =
    split_plain b bs (plain b h.0)
    ∙ ap (λ (s : Bytes × List Bytes). (b ∷ s.0, s.1)) (split_dots-plain bs h.1)

pub split_dots-append :
    (a r : Bytes)
    → All (λ x. x ≢ dot) a
    → split_dots (a ++ dot ∷ r) ≡ (a, (split_dots r).0 ∷ (split_dots r).1)
split_dots-append [] r h = split_at_dot dot r refl
split_dots-append (b ∷ bs) r h =
    split_plain b (bs ++ dot ∷ r) (plain b h.0)
    ∙ ap (λ (s : Bytes × List Bytes). (b ∷ s.0, s.1)) (split_dots-append bs r h.1)

pub bytes_eq_iff : (a b : Bytes) → (bytes_eq a b ≡ true) ↔ (a ≡ b)
unfolding bytes_eq
bytes_eq_iff [] [] = (λ _. refl, λ _. refl)
bytes_eq_iff [] (y ∷ b) = (λ h. cc, λ h. cc)
bytes_eq_iff (x ∷ a) [] = (λ h. cc, λ h. cc)
bytes_eq_iff (x ∷ a) (y ∷ b) = ground (arith, bytes_eq_iff a b, ==_iff x y)
