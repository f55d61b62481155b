-- ===== src/Tests/Config.antt =====
-- Configurations at work.
use agentmsg.Prelude.{◌<◌, ◌≡◌, ◌⊎◌, refl, pos, true, false, none, some, str_eq, if◌then◌else◌}
use agentmsg.Model.Json.{codes_eq}
use agentmsg.Middleware.{new_middleware}
use agentmsg.Config.{
  Environment, load, get_env, get_env_int, get_env_bool, seconds, wrap64, trim_space, normalized,
  contains, is_blank, is_production_env, is_insecure_jwt_secret, issues_of, join, validate,
}
use agentmsg.Config.Accepted.{validate_accepts}

-- Production, with a secret.
abbrev production : Environment
production = record {
  getenv = λ k.
      if str_eq k "ENV" then " Production " else if str_eq k "JWT_SECRET" then "s3cret" else "";
  atoi = λ _. none;
  parse_bool = λ _. none;
}

abbrev unset : Environment
unset = record {
  getenv = λ k. if str_eq k "ENV" then "prod" else "";
  atoi = λ _. none;
  parse_bool = λ _. none;
}

-- In production the default secret is refused.
unset_refused :
    validate true (some (load unset))
    ≡ some "invalid config: JWT_SECRET must be changed from development defaults in production"
unfolding validate issues_of join load get_env get_env_int get_env_bool seconds wrap64 trim_space
    normalized contains is_production_env is_insecure_jwt_secret codes_eq
unset_refused = refl

validate_accepts_example :
    let c = load production in
    let m = new_middleware true true true c.rate_limit_requests c.rate_limit_window in
    (c.rate_limit_requests ≡ pos m.rate_limit_requests)
    × (0 < m.rate_limit_requests)
    × (c.rate_limit_window ≡ pos m.rate_limit_window)
    × (0 < m.rate_limit_window)
    × (is_blank c.jwt_secret ≡ false)
    × ((is_production_env c.env ≡ false) ⊎ (is_insecure_jwt_secret c.jwt_secret ≡ false))
    × ((c.otel_enabled ≡ false) ⊎ (is_blank c.otel_exporter_otlp_endpoint ≡ false))
unfolding validate issues_of join load get_env get_env_int get_env_bool seconds wrap64 trim_space
    normalized contains is_production_env is_insecure_jwt_secret codes_eq
validate_accepts_example = validate_accepts (load production) true true true refl
