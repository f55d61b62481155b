-- ===== src/Api/Responses/Steps.antt =====
-- A handler that answers with a value has gone through all its steps.
use agentmsg.Prelude.{
  ◌≡◌, refl, ap, ◌∙◌, String, some, none, inl, inr, str_eq, Bool-cases, Option-cases, Option, arith,
  ℕ, ◌⊎◌,
}
use agentmsg.Exec.{Exec, ok, Result-cases}
use agentmsg.Model.Scalars.{Uuid}
use agentmsg.Services.World.{Services, World}
use agentmsg.Api.Responses.{Outcome, Handler, serve, bind_json, parse_uuid, context_uuid, ◌>>=◌}

Outcome-cases :
    {A : Type 0} (r : Outcome A)
    → ((a : A) × (r ≡ Outcome.value a))
      ⊎ ((status : ℕ) × (code : String) × (r ≡ Outcome.refused status code))
Outcome-cases (Outcome.value a) = inl (a, refl)
Outcome-cases (Outcome.refused status code) = inr (status, code, refl)

module _ {S A B : Type 0} where
  -- The first step had a value, and the handler is what follows from it.
  pub bind_value :
      (m : Handler S A) (f : A → Handler S B) (s : S) (b : B)
      → ((m >>= f) s).0 ≡ Outcome.value b
      → (a : A) × ((m s).0 ≡ Outcome.value a) × ((m >>= f) s ≡ f a (m s).1)
  bind_value m f s b h = elim (Outcome-cases (m s).0) [
    | inl (a, given) ↦ (a, given, ground (arith, given))
    | inr (status, code, refused) ↦ absurd (ground (arith, refused, h))
  ]

pub serve_value :
    {S A : Type 0} (not_found : String) (m : Exec S A) (s : S) (a : A)
    → (serve not_found m s).0 ≡ Outcome.value a
    → ((m s).0 ≡ ok a) × ((serve not_found m s).1 ≡ (m s).1)
unfolding serve
serve_value not_found m s a h = elim (Result-cases (m s).0) [
  | inl (b, given) ↦ ground (arith, given, h)
  | inr (x, failed) ↦ absurd (ground (arith, failed, h))
]

pub bind_json_value :
    {S A : Type 0} (o : Option A) (s : S) (a : A)
    → (bind_json o s).0 ≡ Outcome.value a
    → (o ≡ some a) × ((bind_json o s).1 ≡ s)
bind_json_value none s a h = cc
bind_json_value (some b) s a h = (cc, refl)

module _ ⦃sv : Services⦄ where
  pub parse_uuid_value :
      (text : String) (w : World sv) (id : Uuid)
      → (parse_uuid text w).0 ≡ Outcome.value id
      → (sv.uuids.parse text ≡ some id) × ((parse_uuid text w).1 ≡ w)
  unfolding parse_uuid
  parse_uuid_value text w id h = elim (Option-cases (sv.uuids.parse text)) [
    | inl missing ↦ absurd (ground (arith, missing, h))
    | inr (i, found) ↦ ground (arith, found, h)
  ]

  pub context_uuid_value :
      (text : String) (w : World sv) (id : Uuid)
      → (context_uuid text w).0 ≡ Outcome.value id
      → (sv.uuids.parse text ≡ some id) × ((context_uuid text w).1 ≡ w)
  unfolding context_uuid
  context_uuid_value text w id h = elim (Bool-cases (str_eq text "")) [
    | inl empty ↦ absurd (ground (arith, empty, h))
    | inr some_text ↦
        let (found, same) = parse_uuid_value text w id (ground (arith, some_text, h)) in
        (found, ground (arith, some_text, same))
  ]

-- A step that leaves the state alone.
pub pure_step :
    {S A B : Type 0} (m : Handler S A) (f : A → Handler S B) (s : S) (b : B) (P : A → Type 0)
    → ((a : A) → (m s).0 ≡ Outcome.value a → P a × ((m s).1 ≡ s))
    → ((m >>= f) s).0 ≡ Outcome.value b
    → (a : A) × P a × ((m >>= f) s ≡ f a s)
pure_step m f s b P k h =
    let (a, given, run) = bind_value m f s b h in
    let (known, same) = k a given in (a, known, run ∙ ap (f a) same)
