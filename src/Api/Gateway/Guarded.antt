-- ===== src/Api/Gateway/Guarded.antt =====
-- What a request under /api/v1 must show before its handler runs.
use agentmsg.Prelude.{
  ℕ, ◌≡◌, ◌⊎◌, refl, ap, ◌∙◌, inl, inr, true, false, String, str_eq, ◌==◌, not, ◌||◌, Bool-cases,
  Option, arith,
}
use agentmsg.Exec.{ok, Exec, Result-cases}
use agentmsg.Model.Scalars.{Uuid, Time, Bytes}
use agentmsg.Services.World.{Services, World}
use agentmsg.Repository.Identities.{tenant_exists, agent_exists}
use agentmsg.Repository.Keys
use agentmsg.Service.Tokens.{TokenCodec, TokenClaims, validate_token, is_blank, bytes_eq}
use agentmsg.Middleware.{Middleware}
use agentmsg.Middleware.Authenticate.{
  Credentials, Identity, authenticate, check_tenant, check_agent, let_in, trim_prefix, bearer,
  is_bootstrap_agent_registration,
}
use agentmsg.Middleware.Authenticate.Granted.{IsVouched, authenticate_granted}
use agentmsg.Middleware.RateLimit.{Limited, Request, rate_limit, count_request, limit_key}
use agentmsg.Middleware.Audit.Recorded.{world-tenant_exists, world-agent_exists}
use agentmsg.Api.Gateway.{Arrived, serve, serve_identified}

module _ ⦃sv : Services⦄ where
  -- What the handlers and the audit write to, but for agents.
  abbrev pub untouched :
      World sv
      → sv.messages.Store × sv.acknowledgements.Store × sv.pending.Store × sv.subscriptions.Store
        × sv.audit_logs.Store
  untouched w = (w.messages, w.acknowledgements, w.pending, w.subscriptions, w.audit_logs)

  check_agent-untouched :
      (rq : Credentials) (claims : TokenClaims) (w : World sv)
      → untouched (check_agent rq claims w).1 ≡ untouched w
  unfolding check_agent let_in
  check_agent-untouched rq claims w = elim (Bool-cases (is_bootstrap_agent_registration rq)) [
    | inl boot ↦ rw boot refl
    | inr usual ↦
        let same = ap untouched (world-agent_exists claims.agent_id w) in
        elim (Result-cases (agent_exists claims.agent_id w).0) [
          | inr (x, failed) ↦ ground (arith, usual, failed, same)
          | inl (false, unknown) ↦ ground (arith, usual, unknown, same)
          | inl (true, there) ↦ ground (arith, usual, there, same)
        ]
  ]

  check_tenant-untouched :
      (rq : Credentials) (claims : TokenClaims) (w : World sv)
      → untouched (check_tenant rq claims w).1 ≡ untouched w
  unfolding check_tenant
  check_tenant-untouched rq claims w =
      let same = ap untouched (world-tenant_exists claims.tenant_id w) in
      let later = check_agent-untouched rq claims (tenant_exists claims.tenant_id w).1 in
      elim (Result-cases (tenant_exists claims.tenant_id w).0) [
        | inr (x, failed) ↦ ground (arith, failed, same)
        | inl (false, unknown) ↦ ground (arith, unknown, same)
        | inl (true, there) ↦ ground (arith, there, same, later)
      ]

  authenticate-untouched :
      (m : Middleware) (codec : TokenCodec sv.uuids) (secret : Bytes) (now : ℕ) (rq : Credentials)
      (w : World sv)
      → untouched (authenticate m codec secret now rq w).1 ≡ untouched w
  unfolding authenticate let_in
  authenticate-untouched m codec secret now rq w =
      let token = trim_prefix rq.authorization bearer in
      elim (Bool-cases (is_blank rq.authorization)) [
        | inl blank ↦ rw blank refl
        | inr some_header ↦ elim (Bool-cases (bytes_eq token rq.authorization)) [
          | inl bare ↦ rw (some_header, bare) refl
          | inr prefixed ↦ elim (Bool-cases m.auth) [
            | inr off ↦ rw (some_header, prefixed, off) refl
            | inl on ↦ elim (Result-cases (validate_token codec secret now token)) [
              | inr (x, bad) ↦ rw (some_header, prefixed, on, bad) refl
              | inl (claims, good) ↦ elim (Bool-cases m.db) [
                | inl db ↦
                    rw (some_header, prefixed, on, good, db) (check_tenant-untouched rq claims w)
                | inr no_db ↦ rw (some_header, prefixed, on, good, no_db) refl
              ]
            ]
          ]
        ]
      ]

  rate_limit-untouched :
      (decimal : ℕ → String) (m : Middleware) (rq : Request) (at : Time) (w : World sv)
      → untouched (rate_limit decimal m rq at w).1 ≡ untouched w
  unfolding rate_limit count_request Keys.incr Keys.expire_counter
  rate_limit-untouched decimal m rq at w =
      elim (Bool-cases (not m.redis || (str_eq rq.agent_id "" || str_eq rq.tenant_id ""))) [
        | inl uncounted ↦ rw uncounted refl
        | inr counted ↦ elim (Result-cases (Keys.incr (limit_key decimal m rq at) at w).0) [
          | inr (x, failed) ↦ ground (arith, counted, failed)
          | inl (n, given) ↦ elim (Bool-cases (n == 1)) [
            | inl first ↦ ground (arith, counted, given, first)
            | inr later ↦ ground (arith, counted, given, later)
          ]
        ]
      ]

module _ ⦃sv : Services⦄ (m : Middleware) (codec : TokenCodec sv.uuids) (secret : Bytes)
    (decimal : ℕ → String) {A : Type 0} (status : A → ℕ)
    (handler : String → String → Exec (World sv) A) where
  -- Whatever its handler would do and whatever the services do: a request under /api/v1 leaves the
  -- messages, the acknowledgements, the pending queue, the subscriptions and the audit logs as they
  -- were; or it has shown a bearer token that carries the service's signature, has not expired and
  -- names an agent and a tenant, for whom the rate limit lets it pass. With a database that tenant
  -- exists, and the agent does unless the request is the registration of an agent.
  pub serve-IsVouched :
      (rq : Arrived) (id : Uuid) (now : ℕ) (at : Time) (w : World sv)
      → (untouched (serve m codec secret decimal status handler rq id now at w).1 ≡ untouched w)
        ⊎ ((agent : String) × (tenant : String) × IsVouched m codec secret now rq.credentials agent
              tenant w
            × ((left : Option (ℕ × ℕ)) × ((rate_limit decimal m
                    (record { agent_id = agent; tenant_id = tenant; full_path = rq.full_path })
                    at
                    (authenticate m codec secret now rq.credentials w).1).0
                  ≡ ok (Limited.passed left))))
  unfolding serve serve_identified
  serve-IsVouched rq id now at w =
      let v : World sv = (authenticate m codec secret now rq.credentials w).1 in
      let before : untouched v ≡ untouched w =
        authenticate-untouched m codec secret now rq.credentials w in
      elim (Result-cases (authenticate m codec secret now rq.credentials w).0) [
        | inr (x, failed) ↦ inl (ground (arith, failed, before))
        | inl (Identity.denied code text, refused) ↦ inl (ground (arith, refused, before))
        | inl (Identity.granted agent tenant, given) ↦
            let r : Request = record {
              agent_id = agent;
              tenant_id = tenant;
              full_path = rq.full_path;
            } in
            let after : untouched (rate_limit decimal m r at v).1 ≡ untouched w =
              rate_limit-untouched decimal m r at v ∙ before in
            elim (Result-cases (rate_limit decimal m r at v).0) [
              | inr (x, failed) ↦ inl (ground (arith, given, failed, after))
              | inl (Limited.rejected n, over) ↦ inl (ground (arith, given, over, after))
              | inl (Limited.passed left, within) ↦ inr (
                agent,
                tenant,
                authenticate_granted m codec secret now rq.credentials agent tenant w given,
                (left, within),
              )
            ]
      ]
