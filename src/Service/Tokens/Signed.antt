-- ===== src/Service/Tokens/Signed.antt =====
-- A token that is accepted carries the service's signature.
use agentmsg.Prelude.{
  ℕ, zero, suc, ◌<◌, ◌≤◌, ℤ, pos, negsuc, ◌≡◌, refl, sym, ap, ◌∙◌, Bool, true, false, not, ◌&&◌,
  Option, none, some, List, [], ◌∷◌, ◌++◌, str_eq, arith,
}
use agentmsg.Exec.{Result, ok, ok_injective}
use agentmsg.Model.Scalars.{Bytes}
use agentmsg.Services.World.{UuidText}
use agentmsg.Service.Tokens.{
  JwtHeader, JwtClaims, TokenClaims, TokenCodec, dot, split_dots, bytes_eq, is_expired, valid_or,
  valid_if, sign_jwt, validate_claims, validate_parts, validate_split, validate_token,
}
use agentmsg.Service.Tokens.Parts.{join_dots, join_dots-split_dots, bytes_eq_iff}

valid_or_inv :
    {A B : Type 0} (o : Option A) (k : A → Result B) (r : B)
    → valid_or o k ≡ ok r
    → (a : A) × (o ≡ some a) × (k a ≡ ok r)
unfolding valid_or
valid_or_inv none k r h = cc
valid_or_inv (some a) k r h = (a, refl, h)

valid_if_inv :
    {B : Type 0} (b : Bool) (x : Result B) (r : B) → valid_if b x ≡ ok r → (b ≡ true) × (x ≡ ok r)
valid_if_inv true x r h = (refl, h)
valid_if_inv false x r h = cc

is_expired-false :
    (t : ℕ) (z : ℤ) → is_expired t z ≡ false → (n : ℕ) × (z ≡ pos n) × (0 < n) × (t ≤ n)
unfolding is_expired
is_expired-false t (pos zero) h = absurd (ground (arith, h))
is_expired-false t (pos (suc n)) h = (suc n, refl, omega arith, ground (arith, h))
is_expired-false t (negsuc n) h = absurd (ground (arith, h))

-- The parts of an accepted token.
pub record Signed {u : UuidText} (c : TokenCodec u) (secret : Bytes) (t : ℕ) (token : Bytes)
    (r : TokenClaims) : Type 0 where
  pub header_text : Bytes
  pub claims_text : Bytes
  pub header_bytes : Bytes
  pub claims_bytes : Bytes
  pub header : JwtHeader
  pub claims : JwtClaims
  pub signed :
      token
      ≡ header_text
        ++ (dot ∷ (claims_text ++ (dot ∷ sign_jwt c secret (header_text ++ dot ∷ claims_text))))
  pub header_decoded : c.decode header_text ≡ some header_bytes
  pub header_read : c.unmarshal_header header_bytes ≡ some header
  pub algorithm : (str_eq header.alg "HS256" && str_eq header.typ "JWT") ≡ true
  pub claims_decoded : c.decode claims_text ≡ some claims_bytes
  pub claims_read : c.unmarshal_claims claims_bytes ≡ some claims
  pub agent : u.parse claims.agent_id ≡ some r.agent_id
  pub tenant : u.parse claims.tenant_id ≡ some r.tenant_id
  -- The claims' time of expiry is set, and has not passed.
  pub current : (n : ℕ) × (claims.expires_at ≡ pos n) × (0 < n) × (t ≤ n)
  pub times : (r.issued_at ≡ claims.issued_at) × (r.expires_at ≡ claims.expires_at)

module _ {u : UuidText} (c : TokenCodec u) (secret : Bytes) where
  claims_accepted :
      (t : ℕ) (claims : JwtClaims) (r : TokenClaims)
      → validate_claims c secret t claims ≡ ok r
      → (u.parse claims.agent_id ≡ some r.agent_id)
        × (u.parse claims.tenant_id ≡ some r.tenant_id)
        × ((n : ℕ) × (claims.expires_at ≡ pos n) × (0 < n) × (t ≤ n))
        × (r.issued_at ≡ claims.issued_at)
        × (r.expires_at ≡ claims.expires_at)
  unfolding validate_claims
  claims_accepted t claims r h =
      let (agent, is_agent, h₁) = valid_or_inv (u.parse claims.agent_id) _ r h in
      let (tenant, is_tenant, h₂) = valid_or_inv (u.parse claims.tenant_id) _ r h₁ in
      let (fresh, h₃) = valid_if_inv (not (is_expired t claims.expires_at)) _ r h₂ in
      let same : record {
        agent_id = agent;
        tenant_id = tenant;
        issued_at = claims.issued_at;
        expires_at = claims.expires_at;
      }
          ≡ r =
        ok_injective h₃ in
      (
        is_agent ∙ ap (λ x. some x.agent_id) same,
        is_tenant ∙ ap (λ x. some x.tenant_id) same,
        is_expired-false t claims.expires_at (ground (arith, fresh)),
        ap (λ x. x.issued_at) (sym same),
        ap (λ x. x.expires_at) (sym same),
      )

  parts_accepted :
      (t : ℕ) (h cl s token : Bytes) (r : TokenClaims)
      → token ≡ h ++ (dot ∷ (cl ++ (dot ∷ s)))
      → validate_parts c secret t h cl s ≡ ok r
      → Signed c secret t token r
  unfolding validate_parts
  parts_accepted t h cl s token r whole k =
      let (hb, decoded, k₁) = valid_or_inv (c.decode h) _ r k in
      let (header, read, k₂) = valid_or_inv (c.unmarshal_header hb) _ r k₁ in
      let (algorithm, k₃) =
        valid_if_inv (str_eq header.alg "HS256" && str_eq header.typ "JWT") _ r k₂ in
      let (cb, decoded', k₄) = valid_or_inv (c.decode cl) _ r k₃ in
      let (same, k₅) = valid_if_inv (bytes_eq s (sign_jwt c secret (h ++ dot ∷ cl))) _ r k₄ in
      let (claims, read', k₆) = valid_or_inv (c.unmarshal_claims cb) _ r k₅ in
      let (agent, tenant, current, issued, expires) = claims_accepted t claims r k₆ in
      record {
        header_text = h;
        claims_text = cl;
        header_bytes = hb;
        claims_bytes = cb;
        header = header;
        claims = claims;
        signed =
            whole
            ∙ ap (λ x. h ++ (dot ∷ (cl ++ (dot ∷ x))))
                ((bytes_eq_iff s (sign_jwt c secret (h ++ dot ∷ cl))).0 same);
        header_decoded = decoded;
        header_read = read;
        algorithm = algorithm;
        claims_decoded = decoded';
        claims_read = read';
        agent = agent;
        tenant = tenant;
        current = current;
        times = (issued, expires);
      }

  split_accepted :
      (t : ℕ) (token : Bytes) (p : Bytes) (ps : List Bytes) (r : TokenClaims)
      → join_dots (p, ps) ≡ token
      → validate_split c secret t (p, ps) ≡ ok r
      → Signed c secret t token r
  unfolding validate_split join_dots
  split_accepted t token p [] r whole h = cc
  split_accepted t token p (q ∷ []) r whole h = cc
  split_accepted t token p (q ∷ s ∷ []) r whole h = parts_accepted t p q s token r (sym whole) h
  split_accepted t token p (q ∷ s ∷ x ∷ ps) r whole h = cc

  -- A token that is accepted: its third part is the service's signature of the first two, its header
  -- names HS256, the claims are what the second part says, and their time of expiry is set and has
  -- not passed.
  pub validate_token-Signed :
      (t : ℕ) (token : Bytes) (r : TokenClaims)
      → validate_token c secret t token ≡ ok r
      → Signed c secret t token r
  unfolding validate_token
  validate_token-Signed t token r h =
      split_accepted t token (split_dots token).0 (split_dots token).1 r
        (join_dots-split_dots token) (ground arith)
