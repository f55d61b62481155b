-- ===== src/Api/Responses.antt =====
-- internal/api/responses.go: how a handler ends early, and what it answers for an error.
pub mod Steps
use agentmsg.Prelude.{ℕ, Option, none, some, String, str_eq, if◌then◌else◌}
use agentmsg.Exec.{Error, Result, ok, err, Exec}
use agentmsg.Model.Scalars.{Uuid}
use agentmsg.Services.World.{Services, World}

-- A handler goes on with a value, or has answered with a status and the code of an error.
pub data Outcome {ℓ} (A : Type ℓ) : Type ℓ where
  value : A → Outcome A
  refused : ℕ → String → Outcome A

abbrev pub Handler : Type 0 → Type 0 → Type 0
Handler S A = S → Outcome A × S

abbrev pub respond : {S A : Type 0} → A → Handler S A
respond a s = (Outcome.value a, s)

abbrev pub refuse : {S A : Type 0} → ℕ → String → Handler S A
refuse status code s = (Outcome.refused status code, s)

infixl 5 ◌>>=◌
abbrev pub ◌>>=◌ : {S A B : Type 0} → Handler S A → (A → Handler S B) → Handler S B
◌>>=◌ m f s =
    let (r, s') = m s in
    elim r [
      | Outcome.value a ↦ f a s'
      | Outcome.refused status code ↦ (Outcome.refused status code, s')
    ]

-- What the handlers read from the context of a request.
pub record Context : Type 0 where
  pub agent_id : String
  pub tenant_id : String
  pub trace_id : String

-- `respondServiceError`: the status and the code for an error of a service.
unfoldable pub service_error : String → Error → ℕ × String
service_error not_found Error.agent_not_found = (404, not_found)
service_error not_found Error.message_not_found = (404, not_found)
service_error not_found Error.agent_already_exists = (409, "agent_conflict")
service_error not_found Error.invalid_message = (400, "invalid_request")
service_error not_found Error.invalid_token = (400, "invalid_request")
service_error not_found Error.unauthorized = (403, "forbidden")
service_error not_found Error.service_unavailable = (503, "service_unavailable")
service_error not_found _ = (500, "internal_error")

-- `if err != nil { respondServiceError(c, err, notFound); return }`
unfoldable pub serve : {S A : Type 0} → String → Exec S A → Handler S A
unfolding service_error
serve not_found m s =
    let (r, s') = m s in
    elim r [
      | ok a ↦ (Outcome.value a, s')
      | err e ↦ (Outcome.refused (service_error not_found e).0 (service_error not_found e).1, s')
    ]

-- The body, where `ShouldBindJSON` decodes it.
abbrev pub bind_json : {S A : Type 0} → Option A → Handler S A
bind_json none = refuse 400 "invalid_request"
bind_json (some a) = respond a

module _ ⦃sv : Services⦄ where
  -- `parseUUIDParam` and `parseUUIDValue`
  unfoldable pub parse_uuid : String → Handler (World sv) Uuid
  parse_uuid text s = elim (sv.uuids.parse text) [
    | none ↦ (Outcome.refused 400 "invalid_uuid", s)
    | some id ↦ (Outcome.value id, s)
  ]

  -- `contextUUID`
  unfoldable pub context_uuid : String → Handler (World sv) Uuid
  unfolding parse_uuid
  context_uuid text = if str_eq text "" then refuse 401 "missing_identity" else parse_uuid text
