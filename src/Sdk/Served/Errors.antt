-- ===== src/Sdk/Served/Errors.antt =====
-- What the client makes of the errors that the handlers answer.
use Prim.Native.String.{◌++◌ as str_append}
use agentmsg.Prelude.{ℕ, ◌≡◌, ◌∙◌, refl, some, false, String, str_eq, if◌then◌else◌, arith}
use agentmsg.Exec.{Error}
use agentmsg.Model.Json.{find_member, names, lower_codes, codes_eq}
use agentmsg.Api.Responses.{service_error}
use agentmsg.Api.Binding.{error_json}
use agentmsg.Sdk.Http.{ClientError, Response}
use agentmsg.Sdk.Client.{Decoder, error_envelope, envelope_error, decode_api_error}
use agentmsg.Sdk.Served.{response}

-- What a caller of the client sees of an error of a service: that there is nothing by the name is
-- told by the code of the endpoint, and any other error has a text of its code and its message.
unfoldable pub missing_error : String → String → ClientError
missing_error not_found message =
    if str_eq not_found "agent_not_found"
    then ClientError.agent_not_found
    else if str_eq not_found "message_not_found"
    then ClientError.message_not_found
    else ClientError.other (str_append not_found (str_append ": " message))

abbrev coded : String → String → ClientError
coded code message = ClientError.other (str_append code (str_append ": " message))

unfoldable pub seen_error : String → String → Error → ClientError
unfolding missing_error
seen_error not_found message Error.agent_not_found = missing_error not_found message
seen_error not_found message Error.message_not_found = missing_error not_found message
seen_error not_found message Error.agent_already_exists = coded "agent_conflict" message
seen_error not_found message Error.invalid_message = coded "invalid_request" message
seen_error not_found message Error.invalid_token = coded "invalid_request" message
seen_error not_found message Error.unauthorized = coded "forbidden" message
seen_error not_found message Error.service_unavailable = coded "service_unavailable" message
seen_error not_found message _ = coded "internal_error" message

envelope-error_json :
    (code message : String) → error_envelope (error_json code message) ≡ some (code, message)
unfolding error_envelope find_member names lower_codes codes_eq
envelope-error_json code message = refl

module _ (d : Decoder) where
  decode_refused :
      (status : ℕ) (code message : String)
      → str_eq message "" ≡ false
      → decode_api_error d (response (status, error_json code message))
        ≡ envelope_error status code message
  unfolding decode_api_error
  decode_refused status code message h = ground (arith, envelope-error_json code message)

  -- The answer of `respondServiceError`, with this message.
  abbrev pub refusal : String → String → Error → Response
  refusal not_found message x =
      let (status, code) = service_error not_found x in response (status, error_json code message)

  service_envelope :
      (not_found message : String) (x : Error)
      → let (status, code) = service_error not_found x in
        envelope_error status code message ≡ seen_error not_found message x
  unfolding service_error seen_error envelope_error
  service_envelope not_found message Error.agent_not_found = refl
  service_envelope not_found message Error.message_not_found = refl
  service_envelope not_found message Error.agent_already_exists = refl
  service_envelope not_found message Error.invalid_message = refl
  service_envelope not_found message Error.invalid_token = refl
  service_envelope not_found message Error.unauthorized = refl
  service_envelope not_found message Error.service_unavailable = refl
  service_envelope not_found message Error.engine_dependencies = refl
  service_envelope not_found message Error.invalid_engine_message = refl
  service_envelope not_found message Error.no_routes = refl
  service_envelope not_found message Error.no_recipients = refl
  service_envelope not_found message Error.unique_violation = refl
  service_envelope not_found message (Error.external s) = refl

  -- An error of a service, as `respondServiceError` answers it with a message that is not empty: the
  -- client reports that there is no such agent or no such message exactly where the service found
  -- none and the endpoint's code is that of agents or of messages, and otherwise the code of the
  -- answer with its message.
  pub decode_api_error-service_error :
      (not_found message : String) (x : Error)
      → str_eq message "" ≡ false
      → decode_api_error d (refusal not_found message x) ≡ seen_error not_found message x
  decode_api_error-service_error not_found message x h =
      let (status, code) = service_error not_found x in
      decode_refused status code message h ∙ service_envelope not_found message x
