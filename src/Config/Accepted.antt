-- ===== src/Config/Accepted.antt =====
-- What the API gateway starts with.
use agentmsg.Prelude.{
  ℕ, zero, suc, ◌<◌, ◌≡◌, ◌⊎◌, inl, inr, refl, ℤ, pos, negsuc, at_most_zero, Bool, true, false,
  ◌&&◌, none, some, String, List, [], ◌∷◌, ◌++◌, arith,
}
use agentmsg.Middleware.{new_middleware}
use agentmsg.Config.{
  Config, is_blank, is_production_env, is_insecure_jwt_secret, issue, issues_of, verdict, validate,
}

issue_absent :
    (b : Bool) (t : String) (rest : List String)
    → issue b t ++ rest ≡ []
    → (b ≡ false) × (rest ≡ [])
issue_absent true t rest h = cc
issue_absent false t rest h = (refl, h)

last_absent : (b : Bool) (t : String) → issue b t ≡ [] → b ≡ false
last_absent true t h = cc
last_absent false t h = refl

one_false : (a b : Bool) → (a && b) ≡ false → (a ≡ false) ⊎ (b ≡ false)
one_false true b h = inr h
one_false false b h = inl refl

no_issues : (issues : List String) → verdict issues ≡ none → issues ≡ []
no_issues [] h = refl
no_issues (s ∷ rest) h = cc

-- A limit that is not refused.
positive : (z : ℤ) → at_most_zero z ≡ false → (n : ℕ) × (z ≡ pos (suc n))
positive (pos zero) h = cc
positive (pos (suc n)) h = (n, refl)
positive (negsuc n) h = cc

-- A configuration that `Validate` accepts for the gateway: the middleware limits the requests by
-- exactly the number and the window that it has, neither of which is 0 or negative; there is a
-- secret that is not blank, which in production is none of the development defaults; and where
-- tracing is on, it has an endpoint.
pub validate_accepts :
    (c : Config) (redis db auth : Bool)
    → validate true (some c) ≡ none
    → let m = new_middleware redis db auth c.rate_limit_requests c.rate_limit_window in
      (c.rate_limit_requests ≡ pos m.rate_limit_requests)
      × (0 < m.rate_limit_requests)
      × (c.rate_limit_window ≡ pos m.rate_limit_window)
      × (0 < m.rate_limit_window)
      × (is_blank c.jwt_secret ≡ false)
      × ((is_production_env c.env ≡ false) ⊎ (is_insecure_jwt_secret c.jwt_secret ≡ false))
      × ((c.otel_enabled ≡ false) ⊎ (is_blank c.otel_exporter_otlp_endpoint ≡ false))
unfolding validate issues_of new_middleware
validate_accepts c redis db auth h =
    let (few, rest₁) = issue_absent _ _ _ (no_issues (issues_of true c) h) in
    let (short, rest₂) = issue_absent _ _ _ rest₁ in
    let (blank_endpoint, rest₃) = issue_absent _ _ _ rest₂ in
    let (blank_secret, rest₄) = issue_absent _ _ _ rest₃ in
    let (n, requests) = positive c.rate_limit_requests few in
    let (k, window) = positive c.rate_limit_window short in
    (
      ground (arith, requests),
      ground (arith, requests),
      ground (arith, window),
      ground (arith, window),
      blank_secret,
      one_false (is_production_env c.env) (is_insecure_jwt_secret c.jwt_secret)
          (last_absent _ _ rest₄),
      one_false c.otel_enabled (is_blank c.otel_exporter_otlp_endpoint) blank_endpoint,
    )
