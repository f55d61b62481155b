-- ===== src/Exec.antt =====
-- Go's `(value, error)` results over the state of the services: what was written before an error
-- stays written, so the state comes back beside the error.
use agentmsg.Prelude.{Bool, true, false, String, ◌≡◌, ◌⊎◌, inl, inr, refl}

-- The errors that the sources tell apart. `unique_violation` is the error that
-- `repository.IsUniqueViolation` recognises; `external` is any other error of a driver or codec.
pub data Error : Type 0 where
  agent_not_found agent_already_exists message_not_found : Error
  unauthorized invalid_token invalid_message service_unavailable : Error
  engine_dependencies invalid_engine_message no_routes no_recipients : Error
  unique_violation : Error
  external : String → Error

pub data Result {ℓ} (A : Type ℓ) : Type ℓ where
  ok : A → Result A
  err : Error → Result A

abbrev pub is_ok : {A : Type 0} → Result A → Bool
is_ok (ok _) = true
is_ok (err _) = false

abbrev pub Done : Type 0
Done = Result (Unit {0})

abbrev pub Exec : Type 0 → Type 0 → Type 0
Exec S A = S → Result A × S

module _ {S A : Type 0} where
  abbrev pub pure : A → Exec S A
  pure a s = (ok a, s)

  abbrev pub raise : Error → Exec S A
  raise e s = (err e, s)

  -- A call whose error the caller looks at itself.
  abbrev pub attempt : Exec S A → Exec S (Result A)
  attempt m s = let (r, s') = m s in (ok r, s')

infixl 5 ◌>>=◌ ◌>>◌
abbrev pub ◌>>=◌ : {S A B : Type 0} → Exec S A → (A → Exec S B) → Exec S B
◌>>=◌ m f s = let (r, s') = m s in elim r [ ok a ↦ f a s' | err e ↦ (err e, s') ]

abbrev pub ◌>>◌ : {S A B : Type 0} → Exec S A → Exec S B → Exec S B
m >> k = m >>= λ _. k

-- `if failed { return e }`
abbrev pub reject_if : {S : Type 0} → Bool → Error → Exec S (Unit {0})
reject_if true e s = (err e, s)
reject_if false e s = (ok tt, s)

-- `_ = call()`: the error is dropped.
abbrev pub ignore : {S A : Type 0} → Exec S A → Exec S (Unit {0})
ignore m s = (ok tt, (m s).1)

-- `err.Error()`
unfoldable pub error_text : Error → String
error_text Error.agent_not_found = "agent not found"
error_text Error.agent_already_exists = "agent already exists"
error_text Error.message_not_found = "message not found"
error_text Error.unauthorized = "unauthorized"
error_text Error.invalid_token = "invalid token"
error_text Error.invalid_message = "invalid message"
error_text Error.service_unavailable = "service dependencies not configured"
error_text Error.engine_dependencies = "engine dependencies not configured"
error_text Error.invalid_engine_message = "invalid message"
error_text Error.no_routes = "no routes available for message"
error_text Error.no_recipients = "message has no recipients"
error_text Error.unique_violation = "pq: duplicate key value violates unique constraint"
error_text (Error.external s) = s

-- `if c { m }`
abbrev pub when : {S : Type 0} → Bool → Exec S (Unit {0}) → Exec S (Unit {0})
when true m s = m s
when false m s = (ok tt, s)

pub Done-cases : (r : Done) → (r ≡ ok tt) ⊎ ((e : Error) × (r ≡ err e))
Done-cases (ok _) = inl refl
Done-cases (err e) = inr (e, refl)

pub Result-cases :
    {A : Type 0} (r : Result A) → ((a : A) × (r ≡ ok a)) ⊎ ((e : Error) × (r ≡ err e))
Result-cases (ok a) = inl (a, refl)
Result-cases (err e) = inr (e, refl)

pub ok_injective : {A : Type 0} {a b : A} → ok a ≡ ok b → a ≡ b
ok_injective h = cc
