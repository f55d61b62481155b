-- ===== src/Middleware/Authenticate/Granted.antt =====
-- What a request that goes on has shown.
use mathlib.Core.Path.{subst}
use agentmsg.Prelude.{
  ℕ, ◌≡◌, sym, ap, ◌∙◌, inl, inr, Bool, true, false, ◌&&◌, none, some, String, [], ◌∷◌, ◌++◌, In,
  ◌==◌, ==_iff, if◌then◌else◌, Bool-cases, Option-cases, arith,
}
use agentmsg.Exec.{ok, Result-cases}
use agentmsg.Model.Scalars.{Uuid, Bytes}
use agentmsg.Model.Tenant.{Tenant}
use agentmsg.Services.World.{AgentRow, Services, World}
use agentmsg.Repository.Agents.{is_live}
use agentmsg.Repository.Identities.{tenant_exists, agent_exists}
use agentmsg.Service.Tokens.{TokenCodec, TokenClaims, bytes_eq, is_blank, validate_token}
use agentmsg.Service.Tokens.Signed.{Signed, validate_token-Signed}
use agentmsg.Service.Tokens.Parts.{bytes_eq_iff}
use agentmsg.Middleware.{Middleware}
use agentmsg.Middleware.Authenticate.{
  Credentials, Identity, bearer, strip_prefix, trim_prefix, is_bootstrap_agent_registration, let_in,
  check_agent, check_tenant, authenticate,
}

strip_prefix-append : (p s r : Bytes) → strip_prefix p s ≡ some r → s ≡ p ++ r
unfolding strip_prefix
strip_prefix-append [] s r h = cc
strip_prefix-append (x ∷ p) [] r h = cc
strip_prefix-append (x ∷ p) (y ∷ s) r h = elim (Bool-cases (x == y)) [
  | inl same ↦
      let rest : s ≡ p ++ r = strip_prefix-append p s r (ground (arith, same, h)) in
      let head : x ≡ y = (==_iff x y).0 same in rw rest (ap (λ z. z ∷ (p ++ r)) (sym head))
  | inr other ↦ ground (arith, other, h)
]

trim_prefix-append : (s p : Bytes) → bytes_eq (trim_prefix s p) s ≡ false → s ≡ p ++ trim_prefix s p
unfolding trim_prefix
trim_prefix-append s p h = elim (Option-cases (strip_prefix p s)) [
  | inl missing ↦ absurd (ground (arith, missing, h, bytes_eq_iff s s))
  | inr (r, found) ↦
      let trimmed : trim_prefix s p ≡ r = ground (arith, found) in
      strip_prefix-append p s r found ∙ ap (λ x. p ++ x) (sym trimmed)
]

module _ ⦃sv : Services⦄ where
  -- A tenant with the identifier, and an agent that is not deleted.
  abbrev pub HasTenant : World sv → Uuid → Type 0
  HasTenant w id = (t : Tenant) × In t (sv.tenants.rows w.tenants) × (t.id ≡ id)

  abbrev pub HasAgent : World sv → Uuid → Type 0
  HasAgent w id =
      (r : AgentRow) × In r (sv.agents.rows w.agents) × (((r.id == id) && is_live r) ≡ true)

  pub tenant_found : (id : Uuid) (w : World sv) → (tenant_exists id w).0 ≡ ok true → HasTenant w id
  unfolding tenant_exists
  tenant_found id w h =
      let p : Tenant → Bool = λ t. t.id == id in
      elim (Result-cases (sv.tenants.get p w.tenants).0) [
        | inr (x, failed) ↦ absurd (ground (arith, failed, h))
        | inl (none, missing) ↦ absurd (ground (arith, missing, h))
        | inl (some t, found) ↦
            let (hit, place) = sv.tenants.get_found p w.tenants t found in
            (t, place, (==_iff t.id id).0 hit)
      ]

  pub agent_found : (id : Uuid) (w : World sv) → (agent_exists id w).0 ≡ ok true → HasAgent w id
  unfolding agent_exists
  agent_found id w h =
      let p : AgentRow → Bool = λ r. (r.id == id) && is_live r in
      elim (Result-cases (sv.agents.get p w.agents).0) [
        | inr (x, failed) ↦ absurd (ground (arith, failed, h))
        | inl (none, missing) ↦ absurd (ground (arith, missing, h))
        | inl (some r, found) ↦
            let (hit, place) = sv.agents.get_found p w.agents r found in (r, place, hit)
      ]

  abbrev Names : TokenClaims → String → String → Type 0
  Names claims a t = (a ≡ sv.uuids.text claims.agent_id) × (t ≡ sv.uuids.text claims.tenant_id)

  let_in-Names :
      (claims : TokenClaims) (a t : String) (w : World sv)
      → (let_in claims w).0 ≡ ok (Identity.granted a t)
      → Names claims a t
  unfolding let_in
  let_in-Names claims a t w h = (cc, cc)

  check_agent_granted :
      (rq : Credentials) (claims : TokenClaims) (a t : String) (w : World sv)
      → (check_agent rq claims w).0 ≡ ok (Identity.granted a t)
      → Names claims a t × (is_bootstrap_agent_registration rq ≡ false → HasAgent w claims.agent_id)
  unfolding check_agent
  check_agent_granted rq claims a t w h = elim (Bool-cases (is_bootstrap_agent_registration rq)) [
    | inl boot ↦ (
      let_in-Names claims a t w (ground (arith, boot, h)),
      λ other. absurd (ground (arith, boot, other)),
    )
    | inr usual ↦ elim (Result-cases (agent_exists claims.agent_id w).0) [
      | inr (x, failed) ↦ absurd (ground (arith, usual, failed, h))
      | inl (false, unknown) ↦ absurd (ground (arith, usual, unknown, h))
      | inl (true, known) ↦
          let w' : World sv = (agent_exists claims.agent_id w).1 in
          (
            let_in-Names claims a t w' (ground (arith, usual, known, h)),
            λ _. agent_found claims.agent_id w known,
          )
    ]
  ]

  tenant_exists-agents : (id : Uuid) (w : World sv) → (tenant_exists id w).1.agents ≡ w.agents
  unfolding tenant_exists
  tenant_exists-agents id w = elim (Result-cases (sv.tenants.get (λ t. t.id == id) w.tenants).0) [
    | inr (x, failed) ↦ ground (arith, failed)
    | inl (found, given) ↦ ground (arith, given)
  ]

  check_tenant_granted :
      (rq : Credentials) (claims : TokenClaims) (a t : String) (w : World sv)
      → (check_tenant rq claims w).0 ≡ ok (Identity.granted a t)
      → Names claims a t
        × HasTenant w claims.tenant_id
        × (is_bootstrap_agent_registration rq ≡ false → HasAgent w claims.agent_id)
  unfolding check_tenant
  check_tenant_granted rq claims a t w h =
      elim (Result-cases (tenant_exists claims.tenant_id w).0) [
        | inr (x, failed) ↦ absurd (ground (arith, failed, h))
        | inl (false, unknown) ↦ absurd (ground (arith, unknown, h))
        | inl (true, known) ↦
            let w' : World sv = (tenant_exists claims.tenant_id w).1 in
            let (names, agent) = check_agent_granted rq claims a t w' (ground (arith, known, h)) in
            (
              names,
              tenant_found claims.tenant_id w known,
              λ usual.
                  let (r, place, hit) = agent usual in
                  (
                    r,
                    subst (λ x. In r (sv.agents.rows x)) (tenant_exists-agents claims.tenant_id w)
                        place,
                    hit,
                  ),
            )
      ]

module _ ⦃sv : Services⦄ (m : Middleware) (codec : TokenCodec sv.uuids) (secret : Bytes)
    (now : ℕ) where
  -- A bearer token of the service was shown, whose claims name the agent and the tenant; with a
  -- database the tenant is in it, and so is the agent unless the request registers one.
  pub record IsVouched (rq : Credentials) (a t : String) (w : World sv) : Type 0 where
    pub token : Bytes
    pub claims : TokenClaims
    pub header : rq.authorization ≡ bearer ++ token
    pub signed : Signed codec secret now token claims
    pub agent_named : a ≡ sv.uuids.text claims.agent_id
    pub tenant_named : t ≡ sv.uuids.text claims.tenant_id
    pub tenant_known : m.db ≡ true → HasTenant w claims.tenant_id
    pub agent_known :
        m.db ≡ true → is_bootstrap_agent_registration rq ≡ false → HasAgent w claims.agent_id

  -- A request that goes on has shown a token that is valid, and then passed the checks on its claims.
  token_shown :
      (rq : Credentials) (a t : String) (w : World sv)
      → (authenticate m codec secret now rq w).0 ≡ ok (Identity.granted a t)
      → let token = trim_prefix rq.authorization bearer in
        (claims : TokenClaims) × (bytes_eq token rq.authorization ≡ false)
        × (validate_token codec secret now token ≡ ok claims)
        × ((if m.db then check_tenant rq claims w else let_in claims w).0
            ≡ ok (Identity.granted a t))
  unfolding authenticate
  token_shown rq a t w h =
      let token = trim_prefix rq.authorization bearer in
      elim (Bool-cases (is_blank rq.authorization)) [
        | inl blank ↦ absurd (ground (arith, blank, h))
        | inr some_header ↦ elim (Bool-cases (bytes_eq token rq.authorization)) [
          | inl same ↦ absurd (ground (arith, some_header, same, h))
          | inr prefixed ↦ elim (Bool-cases m.auth) [
            | inr off ↦ absurd (ground (arith, some_header, prefixed, off, h))
            | inl on ↦ elim (Result-cases (validate_token codec secret now token)) [
              | inr (x, invalid) ↦ absurd (ground (arith, some_header, prefixed, on, invalid, h))
              | inl (claims, valid) ↦
                  (claims, prefixed, valid, ground (arith, some_header, prefixed, on, valid, h))
            ]
          ]
        ]
      ]

  claims_checked :
      (rq : Credentials) (claims : TokenClaims) (a t : String) (w : World sv)
      → (if m.db then check_tenant rq claims w else let_in claims w).0 ≡ ok (Identity.granted a t)
      → Names claims a t
        × (m.db ≡ true → HasTenant w claims.tenant_id)
        × (m.db ≡ true → is_bootstrap_agent_registration rq ≡ false → HasAgent w claims.agent_id)
  claims_checked rq claims a t w h = elim (Bool-cases m.db) [
    | inl db ↦
        let (names, tenant, agent) = check_tenant_granted rq claims a t w (ground (arith, db, h)) in
        (names, λ _. tenant, λ _. agent)
    | inr no_db ↦ (
      let_in-Names claims a t w (ground (arith, no_db, h)),
      λ db. absurd (ground (arith, no_db, db)),
      λ db. absurd (ground (arith, no_db, db)),
    )
  ]

  -- A request that goes on with an agent and a tenant has shown a bearer token that carries the
  -- service's signature, has not expired and names the two. With a database the tenant exists, and
  -- the agent exists and is not deleted, unless the request is the registration of an agent.
  pub authenticate_granted :
      (rq : Credentials) (a t : String) (w : World sv)
      → (authenticate m codec secret now rq w).0 ≡ ok (Identity.granted a t)
      → IsVouched rq a t w
  authenticate_granted rq a t w h =
      let (claims, prefixed, valid, run) = token_shown rq a t w h in
      let (names, tenant, agent) = claims_checked rq claims a t w run in
      record {
        token = trim_prefix rq.authorization bearer;
        claims = claims;
        header = trim_prefix-append rq.authorization bearer prefixed;
        signed =
            validate_token-Signed codec secret now (trim_prefix rq.authorization bearer) claims
              valid;
        agent_named = names.0;
        tenant_named = names.1;
        tenant_known = tenant;
        agent_known = agent;
      }
