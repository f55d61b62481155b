-- ===== src/Sdk/Served/Refused.antt =====
-- A message that the client sends has no recipients for the handler.
use agentmsg.Prelude.{
  ℕ, ◌≡◌, ◌≢◌, ◌⊎◌, inl, inr, refl, ◌&&◌, Option, none, some, String, [], str_eq, Bool-cases,
  Option-cases, arith,
}
use agentmsg.Model.Scalars.{Uuid, Time}
use agentmsg.Model.Json.{Json, members, find_member, names, lower_codes, codes_eq}
use agentmsg.Model.Message.{Message, SendResult, TaskContext}
use agentmsg.Services.World.{Services, World}
use agentmsg.Service.Messages.{MessageService, SendDraw, check_message, send}
use agentmsg.Api.Responses.{Outcome, Context, serve, service_error, parse_uuid, context_uuid}
use agentmsg.Api.Messages.{MessageRequest, serialize_content, build_message}
use agentmsg.Api.Messages
use agentmsg.Api.Binding.{FieldDecoder, bind_members, bind_message_request, error_json, answer}
use agentmsg.Sdk.Http.{err, ClientError}
use agentmsg.Sdk.Messages.{ClientMessage, Encoder, message_fields, message_json}
use agentmsg.Sdk.Client.{ClientConfig, Decoder, decode_api_error}
use agentmsg.Sdk.Client.Messages.{addressed, send_message}
use agentmsg.Sdk.Served.{response, post, posting}

module _ (e : Encoder) where
  abbrev with_optional :
      ClientMessage → Option TaskContext → Option Time → Option Time → ClientMessage
  with_optional m task expires processed = record m {
    task_context = task;
    expires_at = expires;
    processed_at = processed;
  }

  find_absent :
      (m : ClientMessage) (task : Option TaskContext) (expires processed : Option Time)
      → find_member "recipients"
          (members (message_fields e (with_optional m task expires processed)))
        ≡ none
  unfolding members message_fields find_member names lower_codes codes_eq
  find_absent m none none none = refl
  find_absent m none none (some p) = refl
  find_absent m none (some x) none = refl
  find_absent m none (some x) (some p) = refl
  find_absent m (some t) none none = refl
  find_absent m (some t) none (some p) = refl
  find_absent m (some t) (some x) none = refl
  find_absent m (some t) (some x) (some p) = refl

  -- No member of the client's JSON fills the handler's field.
  find_recipients :
      (m : ClientMessage) → find_member "recipients" (members (message_fields e m)) ≡ none
  find_recipients m = find_absent m m.task_context m.expires_at m.processed_at

  bound_recipients :
      (f : FieldDecoder) (m : ClientMessage) (rq : MessageRequest)
      → bind_message_request f (message_json e m) ≡ some rq
      → rq.recipients ≡ []
  unfolding bind_message_request bind_members message_json
  bound_recipients f m rq h = ground (arith, find_recipients m)

-- The handler has answered with an error, and has changed nothing.
abbrev IsRefused : {S A : Type 0} → Outcome A × S → S → Type 0
IsRefused p w =
    (status : ℕ) × (code : String) × (p.0 ≡ Outcome.refused status code)
    × (status ≢ 201)
    × (p.1 ≡ w)

module _ ⦃sv : Services⦄ where
  context_uuid_answers :
      (text : String) (w : World sv)
      → IsRefused (context_uuid text w) w
        ⊎ ((id : Uuid) × (context_uuid text w ≡ (Outcome.value id, w)))
  unfolding context_uuid parse_uuid
  context_uuid_answers text w = elim (Bool-cases (str_eq text "")) [
    | inl empty ↦ inl (
      401,
      "missing_identity",
      ground (arith, empty),
      λ h. omega (arith, h),
      ground (arith, empty),
    )
    | inr given ↦ elim (Option-cases (sv.uuids.parse text)) [
      | inl bad ↦ inl (
        400,
        "invalid_uuid",
        ground (arith, given, bad),
        λ h. omega (arith, h),
        ground (arith, given, bad),
      )
      | inr (id, good) ↦ inr (id, ground (arith, given, good))
    ]
  ]

  send_refuses :
      (s : MessageService) (d : SendDraw) (m : Message) (w : World sv)
      → m.recipient_ids ≡ []
      → IsRefused (serve "message_not_found" (send s d (some m)) w) w
  unfolding serve send check_message service_error
  send_refuses s d m w none_there = elim (Bool-cases (s.repo && s.redis)) [
    | inr off ↦ (
      503,
      "service_unavailable",
      ground (arith, off),
      λ h. omega (arith, h),
      ground (arith, off),
    )
    | inl on ↦ (
      400,
      "invalid_request",
      ground (arith, on, none_there),
      λ h. omega (arith, h),
      ground (arith, on, none_there),
    )
  ]

  send_message_refuses :
      (s : MessageService) (d : SendDraw) (conversation : Uuid) (c : Context)
      (body : Option MessageRequest) (w : World sv)
      → ((rq : MessageRequest) → body ≡ some rq → rq.recipients ≡ [])
      → IsRefused (Messages.send_message s d conversation c body w) w
  unfolding Messages.send_message build_message
  send_message_refuses s d conversation c none w h =
      (400, "invalid_request", refl, λ h. omega (arith, h), refl)
  send_message_refuses s d conversation c (some rq) w h = elim (context_uuid_answers c.agent_id w) [
    | inl (status, code, is, other, same) ↦
        (status, code, ground (arith, is), other, ground (arith, is, same))
    | inr (sender, is₁) ↦ elim (context_uuid_answers c.tenant_id w) [
      | inl (status, code, is, other, same) ↦
          (status, code, ground (arith, is₁, is), other, ground (arith, is₁, is, same))
      | inr (tenant, is₂) ↦ elim (Option-cases (serialize_content rq.content)) [
        | inl missing ↦ (
          400,
          "invalid_request",
          ground (arith, is₁, is₂, missing),
          λ h. omega (arith, h),
          ground (arith, is₁, is₂, missing),
        )
        | inr (b, given) ↦
            let m : Message = build_message conversation sender tenant c.trace_id rq b.0 b.1 in
            let (status, code, is, other, same) = send_refuses s d m w (h rq refl) in
            (
              status,
              code,
              ground (arith, is₁, is₂, given, is),
              other,
              ground (arith, is₁, is₂, given, is, same),
            )
      ]
    ]
  ]

module _ ⦃sv : Services⦄ (s : MessageService) (f : FieldDecoder) (encode : SendResult → Json)
    (text : ℕ → String → String) (sd : SendDraw) (conversation : Uuid) (c : Context)
    (config : ClientConfig) (e : Encoder) (d : Decoder) where
  -- Whatever message the client sends to the handler `sendMessage`, and whatever the values of the
  -- request's context and the services are: the call reports an error, and nothing in the world of
  -- the services has changed. The client calls the recipients `recipientIds`, and the handler
  -- `recipients`.
  pub send_message_refused :
      (fresh : Uuid) (m : ClientMessage) (w : World sv)
      → let p =
          send_message (posting s f encode text sd conversation c) config e d fresh (some m) w in
        ((x : ClientError) × (p.0 ≡ err x)) × (p.1 ≡ w)
  unfolding send_message post answer
  send_message_refused fresh m w =
      let m' : ClientMessage = addressed config fresh m in
      let body = bind_message_request f (message_json e m') in
      let (status, code, is, other, same) =
        send_message_refuses s sd conversation c body w (bound_recipients e f m') in
      (
        (
          decode_api_error d (response (status, error_json code (text status code))),
          ground (arith, is, other),
        ),
        ground (arith, is, other, same),
      )
