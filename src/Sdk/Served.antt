-- ===== src/Sdk/Served.antt =====
-- The client against the handlers of this repository's server.
pub mod Errors
pub mod Refused
use agentmsg.Prelude.{ℕ, Option, none, some, String}
use agentmsg.Model.Scalars.{Uuid}
use agentmsg.Model.Json.{Json}
use agentmsg.Model.Message.{SendResult}
use agentmsg.Services.World.{Services, World}
use agentmsg.Service.Messages.{MessageService, SendDraw}
use agentmsg.Api.Responses.{Handler, Outcome, Context}
use agentmsg.Api.Messages
use agentmsg.Api.Messages.{MessageRequest}
use agentmsg.Api.Binding.{FieldDecoder, bind_message_request, answer}
use agentmsg.Sdk.Http.{Reply, ok, Call, Request, Body, Response, Transport}

abbrev pub response : ℕ × Json → Response
response (status, j) = record { status = status; body = Body.json j }

unfoldable pub body_of : FieldDecoder → Option Json → Option MessageRequest
body_of f none = none
body_of f (some j) = bind_message_request f j

module _ ⦃sv : Services⦄ (s : MessageService) (f : FieldDecoder) (encode : SendResult → Json)
    (message : ℕ → String → String) (d : SendDraw) (conversation : Uuid) (c : Context) where
  unfoldable pub post : Request → Call (World sv) Response
  unfolding body_of
  post rq w =
      let (r, w') = Messages.send_message s d conversation c (body_of f rq.body) w in
      (ok (response (answer 201 encode message r)), w')

  -- A connection on which a request reaches `sendMessage`, in the context `c`.
  abbrev pub posting : Transport
  posting = record { Store = World sv; round_trip = post }
