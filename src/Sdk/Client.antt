-- ===== src/Sdk/Client.antt =====
-- `Client` (sdk/go/agentmsg/client.go). The types of the program's JSON can always be marshalled.
pub mod Agents
pub mod Messages
pub mod Subscriptions
use Prim.Native.String.{◌++◌ as str_append}
use agentmsg.Prelude.{
  ℕ, Bool, true, false, Option, none, some, String, List, [], ◌∷◌, ◌*◌, map, str_eq, ◌==◌,
  if◌then◌else◌,
}
use agentmsg.Model.Scalars.{Uuid, Time, uuid_nil}
use agentmsg.Model.Json.{Json, Members, end, member, find_member}
use agentmsg.Model.Message.{SendResult}
use agentmsg.Model.Agent.{Agent, Capability}
use agentmsg.Model.Acknowledgement.{AckStatus}
use agentmsg.Model.Subscription.{Subscription}
use agentmsg.Services.Redis.{second}
use agentmsg.Sdk.Http.{
  ClientError, Reply, ok, err, Call, give, Request, Body, Response, Transport, ◌>>=◌, ◌>>◌,
}
use agentmsg.Sdk.Messages.{ClientMessage, Encoder, items, message_json}

-- The callbacks are told by whether they are set.
pub record ClientConfig : Type 0 where
  pub api_key : String
  pub agent_id : Uuid
  pub tenant_id : Uuid
  pub base_url : String
  pub ws_url : String
  pub timeout : Time
  pub on_connect : Bool
  pub on_disconnect : Bool

-- `NewClient`
unfoldable pub new_client : Option ClientConfig → Reply ClientConfig
new_client none = err ClientError.invalid_config
new_client (some c) = ok (record c {
  base_url = if str_eq c.base_url "" then "https://api.agentmsg.cloud" else c.base_url;
  timeout = if c.timeout == 0 then 30 * second else c.timeout;
})

-- What `json.Unmarshal` makes of the bodies of answers. An agent is decoded over the one that is
-- there. `agents_member`, `send_results` and `subscriptions` find their list in a member of the body.
-- `decimal` is `%d`.
pub record Decoder : Type 0 where
  pub decimal : ℕ → String
  pub agent : Agent → Json → Option Agent
  pub agents : Json → Option (List Agent)
  pub agents_member : Json → Option (List Agent)
  pub send_result : Json → Option SendResult
  pub send_results : Json → Option (List SendResult)
  pub message : Json → Option ClientMessage
  pub subscriptions : Json → Option (List Subscription)

-- A member that fills a string; none where its value does not fit.
abbrev pub text_field : Option Json → Option String
text_field none = some ""
text_field (some Json.null) = some ""
text_field (some (Json.text s)) = some s
text_field (some _) = none

abbrev both : Option String → Option String → Option (String × String)
both (some a) (some b) = some (a, b)
both _ _ = none

-- The code and the message of `apiErrorEnvelope`; none where `json.Unmarshal` fails.
unfoldable pub error_envelope : Json → Option (String × String)
error_envelope (Json.object ms) = elim (find_member "error" ms) [
  | none ↦ some ("", "")
  | some Json.null ↦ some ("", "")
  | some (Json.object inner) ↦
      both (text_field (find_member "code" inner)) (text_field (find_member "message" inner))
  | some _ ↦ none
]
error_envelope Json.null = some ("", "")
error_envelope _ = none

abbrev pub status_error : Decoder → ℕ → ClientError
status_error d status =
    ClientError.other (str_append "request failed with status: " (d.decimal status))

-- The error of an answer whose envelope has a message.
unfoldable pub envelope_error : ℕ → String → String → ClientError
envelope_error status code message =
    if status == 404
    then (if str_eq code "agent_not_found"
        then ClientError.agent_not_found
        else if str_eq code "message_not_found"
        then ClientError.message_not_found
        else ClientError.other (str_append code (str_append ": " message)))
    else ClientError.other (str_append code (str_append ": " message))

-- `decodeAPIError`
unfoldable pub decode_api_error : Decoder → Response → ClientError
decode_api_error d resp = elim resp.body [
  | Body.unreadable ↦ status_error d resp.status
  | Body.garbled ↦ status_error d resp.status
  | Body.json j ↦ elim (error_envelope j) [
    | none ↦ status_error d resp.status
    | some (code, message) ↦
        if str_eq message ""
        then status_error d resp.status
        else envelope_error resp.status code message
  ]
]

abbrev pub bearer : ClientConfig → String
bearer c = str_append "Bearer " c.api_key

-- The requests of the methods, which all carry the key.
abbrev pub request : ClientConfig → String → String → Request
request c method path = record {
  method = method;
  url = str_append c.base_url path;
  authorization = bearer c;
  json_content = false;
  body = none;
}

abbrev pub request_with : ClientConfig → String → String → Json → Request
request_with c method path j = record (request c method path) { json_content = true; body = some j }

-- `if resp.StatusCode != n { return decodeAPIError(resp) }`
abbrev pub expect : {S : Type 0} → Decoder → ℕ → Response → Call S (Unit {0})
expect d n resp = if resp.status == n then give (ok tt) else give (err (decode_api_error d resp))

abbrev pub decoding : {A : Type 0} → (Json → Option A) → Body → Reply A
decoding f (Body.json j) = elim (f j) [ none ↦ err (ClientError.other "json") | some a ↦ ok a ]
decoding f _ = err (ClientError.other "json")

-- `json.NewDecoder(resp.Body).Decode`
abbrev pub decode : {S A : Type 0} → (Json → Option A) → Response → Call S A
decode f resp = give (decoding f resp.body)
