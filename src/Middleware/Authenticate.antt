-- ===== src/Middleware/Authenticate.antt =====
-- `Middleware.Authenticate` (internal/middleware/middleware.go). A header is the list of its bytes.
pub mod Granted
use agentmsg.Prelude.{
  ℕ, Bool, true, false, not, ◌&&◌, Option, none, some, String, List, [], ◌∷◌, str_eq, ◌==◌,
  if◌then◌else◌,
}
use agentmsg.Exec.{Result, ok, err, Exec, pure, attempt, ◌>>=◌}
use agentmsg.Model.Scalars.{Uuid, Bytes}
use agentmsg.Services.World.{UuidText, Services, World}
use agentmsg.Repository.Identities.{tenant_exists, agent_exists}
use agentmsg.Service.Tokens.{TokenCodec, TokenClaims, bytes_eq, is_blank, validate_token}
use agentmsg.Middleware.{Middleware}

-- What it reads of a request: the header `Authorization`, which is empty if it is missing, the
-- method, and the path of the URL.
pub record Credentials : Type 0 where
  pub authorization : Bytes
  pub method : String
  pub path : String

-- The request goes on with the texts of `agent_id` and `tenant_id` in its context, or is answered with
-- a status and the code of an error.
pub data Identity : Type 0 where
  granted : String → String → Identity
  denied : ℕ → String → Identity

-- `"Bearer "`
abbrev pub bearer : Bytes
bearer = 66 ∷ 101 ∷ 97 ∷ 114 ∷ 101 ∷ 114 ∷ 32 ∷ []

-- What follows a prefix.
unfoldable pub strip_prefix : Bytes → Bytes → Option Bytes
strip_prefix [] s = some s
strip_prefix (p ∷ ps) [] = none
strip_prefix (p ∷ ps) (x ∷ s) = let rest = strip_prefix ps s in if p == x then rest else none

-- `strings.TrimPrefix`
unfoldable pub trim_prefix : Bytes → Bytes → Bytes
trim_prefix s p = elim (strip_prefix p s) [ none ↦ s | some rest ↦ rest ]

-- `isBootstrapAgentRegistration`
unfoldable pub is_bootstrap_agent_registration : Credentials → Bool
is_bootstrap_agent_registration rq = str_eq rq.method "POST" && str_eq rq.path "/api/v1/agents"

module _ ⦃sv : Services⦄ where
  -- The end of the handler: `c.Set` and `c.Next`.
  unfoldable pub let_in : TokenClaims → Exec (World sv) Identity
  let_in claims =
      pure (Identity.granted (sv.uuids.text claims.agent_id) (sv.uuids.text claims.tenant_id))

  unfoldable pub check_agent : Credentials → TokenClaims → Exec (World sv) Identity
  check_agent rq claims =
      if is_bootstrap_agent_registration rq
      then let_in claims
      else (attempt (agent_exists claims.agent_id) >>= λ found. elim found [
        | err _ ↦ pure (Identity.denied 503 "agent_lookup_unavailable")
        | ok false ↦ pure (Identity.denied 401 "unknown_agent")
        | ok true ↦ let_in claims
      ])

  unfoldable pub check_tenant : Credentials → TokenClaims → Exec (World sv) Identity
  check_tenant rq claims = attempt (tenant_exists claims.tenant_id) >>= λ found. elim found [
    | err _ ↦ pure (Identity.denied 503 "tenant_lookup_unavailable")
    | ok false ↦ pure (Identity.denied 401 "unknown_tenant")
    | ok true ↦ check_agent rq claims
  ]

  -- `codec`, `secret` and `now` are those of `ValidateToken`.
  unfoldable pub authenticate :
      Middleware → TokenCodec sv.uuids → Bytes → ℕ → Credentials → Exec (World sv) Identity
  authenticate m codec secret now rq =
      if is_blank rq.authorization
      then pure (Identity.denied 401 "missing_authorization")
      else if bytes_eq (trim_prefix rq.authorization bearer) rq.authorization
      then pure (Identity.denied 401 "invalid_authorization_format")
      else if not m.auth
      then pure (Identity.denied 401 "authentication_unavailable")
      else elim (validate_token codec secret now (trim_prefix rq.authorization bearer)) [
        | err _ ↦ pure (Identity.denied 401 "invalid_token")
        | ok claims ↦ if m.db then check_tenant rq claims else let_in claims
      ]
