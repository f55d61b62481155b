-- ===== src/Service/Tokens/RoundTrip.antt =====
-- Tokens that the service made are valid for a day, and only tokens that are signed are valid.
use agentmsg.Prelude.{
  ℕ, ◌+◌, pos, ◌≡◌, refl, ap, ◌∙◌, true, List, [], ◌∷◌, ◌++◌, leb, if◌then◌else◌, arith,
}
use agentmsg.Exec.{Error, ok, err}
use agentmsg.Model.Scalars.{Uuid, Bytes}
use agentmsg.Services.World.{UuidText}
use agentmsg.Service.Tokens.{
  TokenClaims, TokenCodec, dot, split_dots, bytes_eq, is_expired, valid_or, the_header, claims_for,
  sign_jwt, signing_input, generate_token, validate_claims, validate_parts, validate_split,
  validate_token,
}
use agentmsg.Service.Tokens.Parts.{split_dots-plain, split_dots-append, bytes_eq_iff}

module _ {u : UuidText} (c : TokenCodec u) (secret : Bytes) where
  abbrev header_part : Bytes
  header_part = c.encode (c.marshal_header the_header)

  abbrev claims_part : Uuid → Uuid → ℕ → Bytes
  claims_part agent tenant now = c.encode (c.marshal_claims (claims_for u agent tenant now))

  abbrev signature_part : Uuid → Uuid → ℕ → Bytes
  signature_part agent tenant now = sign_jwt c secret (signing_input c secret agent tenant now)

  append_assoc : (a b d : Bytes) → (a ++ b) ++ d ≡ a ++ (b ++ d)
  append_assoc [] b d = refl
  append_assoc (x ∷ a) b d = ap (λ l. x ∷ l) (append_assoc a b d)

  -- The token splits into its three parts again.
  split-token :
      (agent tenant : Uuid) (now : ℕ)
      → split_dots
          (signing_input c secret agent tenant now ++ dot ∷ signature_part agent tenant now)
        ≡ (header_part, claims_part agent tenant now ∷ signature_part agent tenant now ∷ [])
  unfolding signing_input sign_jwt
  split-token agent tenant now =
      let h = header_part in
      let cl = claims_part agent tenant now in
      let s = signature_part agent tenant now in
      ap split_dots (append_assoc h (dot ∷ cl) (dot ∷ s))
      ∙ split_dots-append h (cl ++ dot ∷ s) (c.encode_plain _)
      ∙ ap (λ (q : Bytes × List Bytes). (h, q.0 ∷ q.1))
          (split_dots-append cl s (c.encode_plain _)
            ∙ ap (λ (q : Bytes × List Bytes). (cl, q.0 ∷ q.1))
                (split_dots-plain s (c.encode_plain _)))

  abbrev pub claims_of : Uuid → Uuid → ℕ → TokenClaims
  claims_of agent tenant now = record {
    agent_id = agent;
    tenant_id = tenant;
    issued_at = pos now;
    expires_at = pos (now + 86_400);
  }

  validate-made :
      (agent tenant : Uuid) (now t : ℕ)
      → validate_parts c secret t header_part
          (claims_part agent tenant now)
          (signature_part agent tenant now)
        ≡ validate_claims c secret t (claims_for u agent tenant now)
  unfolding validate_parts valid_or signing_input
  validate-made agent tenant now t =
      let s = signature_part agent tenant now in
      let signed : bytes_eq s s ≡ true = (bytes_eq_iff s s).1 refl in
      ground (
        arith,
        c.decode-encode (c.marshal_header the_header),
        c.header_law,
        c.decode-encode (c.marshal_claims (claims_for u agent tenant now)),
        c.claims_law agent tenant now,
        signed,
      )

  validate-claims_for :
      (agent tenant : Uuid) (now t : ℕ)
      → validate_claims c secret t (claims_for u agent tenant now) ≡ (
          if leb t (now + 86_400) then ok (claims_of agent tenant now) else err Error.invalid_token)
  unfolding validate_claims valid_or is_expired claims_for
  validate-claims_for agent tenant now t = ground (arith, u.parse-text agent, u.parse-text tenant)

  -- Validating a token that the service has made, at any later or earlier time: the claims come back
  -- until a day after it was made, and from then on the token is invalid.
  pub validate_token-generate_token :
      (agent tenant : Uuid) (now t : ℕ) (token : Bytes)
      → generate_token c secret agent tenant now ≡ ok token
      → validate_token c secret t token ≡ (
          if leb t (now + 86_400) then ok (claims_of agent tenant now) else err Error.invalid_token)
  unfolding generate_token validate_token validate_split
  validate_token-generate_token agent tenant now t token h = ground (
    arith,
    h,
    split-token agent tenant now,
    validate-made agent tenant now t,
    validate-claims_for agent tenant now t,
  )
