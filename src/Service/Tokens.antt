-- ===== src/Service/Tokens.antt =====
-- `AuthService` (internal/service/service.go). A token is the list of its bytes.
pub mod Parts
pub mod RoundTrip
pub mod Signed
use agentmsg.Prelude.{
  ℕ, zero, suc, ◌+◌, ℤ, pos, negsuc, ◌≡◌, ◌≢◌, Bool, true, false, not, ◌&&◌, ◌||◌, Option, none,
  some, String, List, [], ◌∷◌, ◌++◌, All, ltb, str_eq, ◌==◌, if◌then◌else◌,
}
use agentmsg.Exec.{Error, Result, ok, err}
use agentmsg.Model.Scalars.{Uuid, Bytes}
use agentmsg.Services.World.{UuidText}

pub record JwtHeader : Type 0 where
  pub alg : String
  pub typ : String

pub record JwtClaims : Type 0 where
  pub sub : String
  pub agent_id : String
  pub tenant_id : String
  pub issued_at : ℤ
  pub expires_at : ℤ

pub record TokenClaims : Type 0 where
  pub agent_id : Uuid
  pub tenant_id : Uuid
  pub issued_at : ℤ
  pub expires_at : ℤ

-- `"."`
abbrev pub dot : ℕ
dot = 46

-- The header of every token, and the claims for an agent of a tenant.
abbrev pub the_header : JwtHeader
the_header = record { alg = "HS256"; typ = "JWT" }

unfoldable pub claims_for : UuidText → Uuid → Uuid → ℕ → JwtClaims
claims_for u agent tenant now = record {
  sub = u.text agent;
  agent_id = u.text agent;
  tenant_id = u.text tenant;
  issued_at = pos now;
  expires_at = pos (now + 86_400);
}

-- What the service takes from Go's library: `base64.RawURLEncoding`, `json.Marshal` and
-- `json.Unmarshal` of the two structs, and HMAC with SHA-256. The laws are that what the service
-- encodes decodes, and that the encoding has no dot.
pub record TokenCodec (u : UuidText) : Type 0 where
  pub encode : Bytes → Bytes
  pub decode : Bytes → Option Bytes
  pub marshal_header : JwtHeader → Bytes
  pub unmarshal_header : Bytes → Option JwtHeader
  pub marshal_claims : JwtClaims → Bytes
  pub unmarshal_claims : Bytes → Option JwtClaims
  pub hmac : (secret message : Bytes) → Bytes
  pub decode-encode : (b : Bytes) → decode (encode b) ≡ some b
  pub encode_plain : (b : Bytes) → All (λ x. x ≢ dot) (encode b)
  pub header_law : unmarshal_header (marshal_header the_header) ≡ some the_header
  pub claims_law :
      (agent tenant : Uuid) (now : ℕ)
      → unmarshal_claims (marshal_claims (claims_for u agent tenant now))
        ≡ some (claims_for u agent tenant now)

-- `strings.Split(token, ".")`: the first part, and the others.
unfoldable pub split_dots : Bytes → Bytes × List Bytes
split_dots [] = ([], [])
split_dots (b ∷ bs) =
    let rest = split_dots bs in if b == dot then ([], rest.0 ∷ rest.1) else (b ∷ rest.0, rest.1)

unfoldable pub bytes_eq : Bytes → Bytes → Bool
bytes_eq [] [] = true
bytes_eq [] (_ ∷ _) = false
bytes_eq (_ ∷ _) [] = false
bytes_eq (x ∷ xs) (y ∷ ys) = (x == y) && bytes_eq xs ys

abbrev pub is_blank : Bytes → Bool
is_blank [] = true
is_blank (_ ∷ _) = false

-- `ExpiresAt == 0 || time.Now().Unix() > ExpiresAt`
unfoldable pub is_expired : ℕ → ℤ → Bool
is_expired now (pos zero) = true
is_expired now (pos (suc n)) = ltb (suc n) now
is_expired now (negsuc _) = true

-- `if err != nil { return nil, ErrInvalidToken }`
unfoldable pub valid_or : {A B : Type 0} → Option A → (A → Result B) → Result B
valid_or none k = err Error.invalid_token
valid_or (some a) k = k a

abbrev pub valid_if : {B : Type 0} → Bool → Result B → Result B
valid_if true r = r
valid_if false r = err Error.invalid_token

-- `secret` is `jwtSecret`, and `now` is `time.Now().Unix()`.
module _ {u : UuidText} (c : TokenCodec u) (secret : Bytes) where
  unfoldable pub sign_jwt : Bytes → Bytes
  sign_jwt input = c.encode (c.hmac secret input)

  unfoldable pub signing_input : Uuid → Uuid → ℕ → Bytes
  unfolding claims_for
  signing_input agent tenant now =
      c.encode (c.marshal_header the_header)
      ++ dot ∷ c.encode (c.marshal_claims (claims_for u agent tenant now))

  unfoldable pub generate_token : Uuid → Uuid → ℕ → Result Bytes
  generate_token agent tenant now =
      if is_blank secret
      then err Error.service_unavailable
      else ok (signing_input agent tenant now ++ dot ∷ sign_jwt (signing_input agent tenant now))

  -- The claims of a token whose signature is right.
  unfoldable pub validate_claims : ℕ → JwtClaims → Result TokenClaims
  unfolding valid_or is_expired
  validate_claims now claims = valid_or (u.parse claims.agent_id) (λ agent.
      valid_or (u.parse claims.tenant_id) (λ tenant.
        valid_if (not (is_expired now claims.expires_at)) (
          ok (record {
            agent_id = agent;
            tenant_id = tenant;
            issued_at = claims.issued_at;
            expires_at = claims.expires_at;
          }))))

  -- The three parts of a token.
  unfoldable pub validate_parts : ℕ → Bytes → Bytes → Bytes → Result TokenClaims
  unfolding valid_or bytes_eq
  validate_parts now header claims signature = valid_or (c.decode header) (λ header_bytes.
      valid_or (c.unmarshal_header header_bytes) (λ h.
        valid_if (str_eq h.alg "HS256" && str_eq h.typ "JWT") (
          valid_or (c.decode claims) (λ claims_bytes.
            valid_if (bytes_eq signature (sign_jwt (header ++ dot ∷ claims)))
              (valid_or (c.unmarshal_claims claims_bytes) (validate_claims now))))))

  -- `len(parts) != 3`
  unfoldable pub validate_split : ℕ → Bytes × List Bytes → Result TokenClaims
  validate_split now (header, claims ∷ signature ∷ []) = validate_parts now header claims signature
  validate_split now _ = err Error.invalid_token

  unfoldable pub validate_token : ℕ → Bytes → Result TokenClaims
  validate_token now token =
      if is_blank secret
      then err Error.service_unavailable
      else validate_split now (split_dots token)
