-- ===== src/Tests/Tokens.antt =====
-- Tokens at work, over an encoding that moves bytes past the dot and a digest that repeats them.
use agentmsg.Prelude.{
  ℕ, zero, suc, ◌+◌, ◌-◌, ℤ, pos, negsuc, ◌≡◌, ◌≢◌, refl, ap, true, false, Option, none, some, [],
  ◌∷◌, ◌++◌, All, leb, if◌then◌else◌, arith,
}
use agentmsg.Exec.{Error, ok, err}
use agentmsg.Model.Scalars.{Uuid, Bytes}
use agentmsg.Model.Tenant.{Tenant}
use agentmsg.Services.World.{UuidText, World}
use agentmsg.Services.Memory.All.{text, size, memory}
use agentmsg.Repository.Identities.{tenant_exists, agent_exists}
use agentmsg.Middleware.{Middleware}
use agentmsg.Middleware.Authenticate.{
  Credentials, bearer, strip_prefix, trim_prefix, is_bootstrap_agent_registration, let_in,
  check_agent, check_tenant, authenticate,
}
use agentmsg.Middleware.Authenticate.Granted.{IsVouched, authenticate_granted}
use agentmsg.Tests.Fixtures.{empty_world, translator}
use agentmsg.Service.Tokens.{
  JwtClaims, TokenCodec, dot, the_header, claims_for, split_dots, bytes_eq, is_expired, valid_or,
  sign_jwt, signing_input, generate_token, validate_claims, validate_parts, validate_split,
  validate_token,
}
use agentmsg.Service.Tokens.RoundTrip.{claims_of, validate_token-generate_token}
use agentmsg.Service.Tokens.Signed.{Signed, validate_token-Signed}

abbrev uuids : UuidText
uuids = memory.uuids

abbrev up : Bytes → Bytes
up [] = []
up (b ∷ bs) = (b + 47) ∷ up bs

abbrev down : Bytes → Bytes
down [] = []
down (b ∷ bs) = (b - 47) ∷ down bs

pub down-up : (b : Bytes) → down (up b) ≡ b
down-up [] = refl
down-up (b ∷ bs) = ground (arith, down-up bs)

pub up_plain : (b : Bytes) → All (λ x. x ≢ dot) (up b)
up_plain [] = tt
up_plain (b ∷ bs) = (λ e. omega (arith, e), up_plain bs)

abbrev number : ℤ → ℕ
number (pos n) = n
number (negsuc n) = 0

abbrev claims_bytes : JwtClaims → Bytes
claims_bytes c = size c.agent_id ∷ size c.tenant_id ∷ number c.issued_at ∷ number c.expires_at ∷ []

abbrev read_claims : Bytes → Option JwtClaims
read_claims (a ∷ t ∷ i ∷ e ∷ []) = some (record {
  sub = text a;
  agent_id = text a;
  tenant_id = text t;
  issued_at = pos i;
  expires_at = pos e;
})
read_claims _ = none

size_text : (id : Uuid) → size (text id) ≡ id
size_text zero = refl
size_text (suc id) = ap suc (size_text id)

pub read_claims-claims_bytes :
    (agent tenant : Uuid) (now : ℕ)
    → read_claims (claims_bytes (claims_for uuids agent tenant now))
      ≡ some (claims_for uuids agent tenant now)
unfolding claims_for
read_claims-claims_bytes agent tenant now = rw (size_text agent, size_text tenant) refl

abbrev pub codec : TokenCodec uuids
codec = record {
  encode = up;
  decode = λ b. some (down b);
  marshal_header = λ _. 1 ∷ [];
  unmarshal_header = λ _. some the_header;
  marshal_claims = claims_bytes;
  unmarshal_claims = read_claims;
  hmac = λ secret message. secret ++ message;
  decode-encode = λ b. ap some (down-up b);
  encode_plain = up_plain;
  header_law = refl;
  claims_law = read_claims-claims_bytes;
}

-- The token for agent 2 of tenant 3, made at second 1000.
abbrev token : Bytes
token = 48 ∷ 46 ∷ 49 ∷ 50 ∷ 1_047 ∷ 87_447 ∷ 46 ∷ 54 ∷ 95 ∷ 93 ∷ 96 ∷ 97 ∷ 1_094 ∷ 87_494 ∷ []

validate_token-generate_token_example : validate_token codec (7 ∷ []) 5_000 token ≡ (
    if leb 5_000 (1_000 + 86_400)
    then ok (claims_of codec (7 ∷ []) 2 3 1_000)
    else err Error.invalid_token)
unfolding generate_token signing_input sign_jwt claims_for
validate_token-generate_token_example =
    validate_token-generate_token codec (7 ∷ []) 2 3 1_000 5_000 token refl

validate_token-Signed_example :
    Signed codec (7 ∷ []) 5_000 token (claims_of codec (7 ∷ []) 2 3 1_000)
unfolding validate_token validate_split validate_parts validate_claims valid_or split_dots bytes_eq
    is_expired sign_jwt
validate_token-Signed_example =
    validate_token-Signed codec (7 ∷ []) 5_000 token (claims_of codec (7 ∷ []) 2 3 1_000) refl

-- Tenant 3, and its agent 2.
abbrev tenant : Tenant
tenant = record {
  id = 3;
  name = "";
  slug = "";
  plan = "";
  limits = record {
    message_per_month = 1;
    max_agents = 1;
    max_connections = 1;
    retention_days = 1;
    sla_percent = 0;
  };
  usage = record {
    message_count = 0;
    bandwidth_bytes = 0;
    storage_bytes = 0;
    api_calls = 0;
    reset_at = 0;
  };
  message_used = 0;
  agent_count = 1;
  status = "active";
  sso_enabled = false;
  billing_email = "";
}

abbrev pub one_tenant : World memory
one_tenant = record empty_world {
  tenants = record { held = tenant ∷ []; faults = [] };
  agents = record {
    held = record { agent = record translator { id = 2; tenant_id = 3 }; deleted_at = none } ∷ [];
    faults = [];
  };
}

abbrev pub gate : Middleware
gate = record {
  redis = true;
  db = true;
  auth = true;
  rate_limit_requests = 600;
  rate_limit_window = 60_000_000_000;
}

abbrev pub credentials : Credentials
credentials = record { authorization = bearer ++ token; method = "GET"; path = "/api/v1/messages" }

authenticate_granted_example :
    IsVouched gate codec (7 ∷ []) 5_000 credentials (text 2) (text 3) one_tenant
unfolding authenticate trim_prefix strip_prefix check_tenant check_agent let_in tenant_exists
    agent_exists is_bootstrap_agent_registration validate_token validate_split validate_parts
    validate_claims valid_or split_dots bytes_eq is_expired sign_jwt
authenticate_granted_example =
    authenticate_granted gate codec (7 ∷ []) 5_000 credentials (text 2) (text 3) one_tenant refl
