-- ===== src/Middleware/RateLimit/Counts.antt =====
-- The requests of one agent to one path in one window: the first ones pass, up to the limit.
use native.Mathlib.Omega.{div_any}
use native.Mathlib.Nat.{mod-lt}
use agentmsg.Prelude.{
  ℕ, ◌+◌, ◌*◌, ◌/◌, ◌<◌, ◌≡◌, ◌⊎◌, inl, inr, refl, ap, ◌∙◌, true, some, String, str_eq_self, ◌==◌,
  Bool-cases, arith,
}
use agentmsg.Exec.{ok, is_ok, Result-cases}
use agentmsg.Model.Scalars.{Time}
use agentmsg.Services.Redis.{Counter, second, bump, is_alive}
use agentmsg.Services.World.{Services, World}
use agentmsg.Repository.Keys
use agentmsg.Middleware.{Middleware}
use agentmsg.Middleware.RateLimit.{Request, limit_seconds, slot, limit_key, judge, count_request}

same_quotient : (a b k : ℕ) → 0 < k → a / k ≡ b / k → b < a + k
same_quotient a b k h e = omega (arith, div_any a k, div_any b k, mod-lt b h, ap (λ q. k * q) e)

limit_seconds_some : (m : Middleware) → 0 < limit_seconds m
unfolding limit_seconds
limit_seconds_some m = ground arith

-- A counter that is given its deadline in a window outlives the window.
outlives : (m : Middleware) (t t' : Time) → slot m t ≡ slot m t' → t' < t + limit_seconds m * second
unfolding slot
outlives m t t' h =
    omega
      (arith, same_quotient (t / second) (t' / second) (limit_seconds m) (limit_seconds_some m) h)

module _ ⦃sv : Services⦄ (decimal : ℕ → String) (m : Middleware) (rq : Request) where
  abbrev pub counter : Time → World sv → Counter
  counter t w = sv.counters.cell w.counters (limit_key decimal m rq t)

  -- The counter of the window of `t` stands at `n`, and lives through the window unless it is new.
  pub record IsCounted (t : Time) (n : ℕ) (w : World sv) : Type 0 where
    pub count : (counter t w).n ≡ n
    pub alive : (t' : Time) → slot m t ≡ slot m t' → is_alive t' (counter t w) ≡ true

  -- Redis answers `INCR`.
  abbrev pub Answers : Time → World sv → Type 0
  Answers t w = is_ok (sv.counters.incr (limit_key decimal m rq t) t w.counters).0 ≡ true

  -- The deadline that the first request of a window sets.
  abbrev dated : Time → Counter → Counter
  dated t c = record c { deadline = some (t + limit_seconds m * second) }

  bump_counted :
      (t : Time) (n : ℕ) (w : World sv)
      → IsCounted t n w
      → bump t (counter t w) ≡ record (counter t w) { n = n + 1 }
  bump_counted t n w h = ground (arith, h.count, h.alive t refl)

  incr_counted :
      (t : Time) (n : ℕ) (w : World sv)
      → IsCounted t n w
      → Answers t w
      → let k = limit_key decimal m rq t in
        ((sv.counters.incr k t w.counters).0 ≡ ok (n + 1))
        × (sv.counters.cell (sv.counters.incr k t w.counters).1 k
            ≡ record (counter t w) { n = n + 1 })
  incr_counted t n w h answers =
      let k = limit_key decimal m rq t in
      elim (Result-cases (sv.counters.incr k t w.counters).0) [
        | inr (x, failed) ↦ absurd (ground (arith, failed, answers))
        | inl (c, given) ↦
            let (is, cells) = sv.counters.incr_done k t w.counters c given in
            let bumped = bump_counted t n w h in
            (
              given ∙ ap ok (is ∙ ap (λ (x : Counter). x.n) bumped),
              ground (arith, cells k, str_eq_self k, bumped),
            )
      ]

  counter_after :
      (t : Time) (n : ℕ) (w : World sv)
      → IsCounted t n w
      → Answers t w
      → let c₁ : Counter = record (counter t w) { n = n + 1 } in
        let c₂ = counter t (count_request decimal m rq t w).1 in (c₂ ≡ c₁) ⊎ (c₂ ≡ dated t c₁)
  unfolding count_request Keys.incr Keys.expire_counter
  counter_after t n w h answers =
      let k = limit_key decimal m rq t in
      let s₁ = (sv.counters.incr k t w.counters).1 in
      let (given, cell) = incr_counted t n w h answers in
      elim (Bool-cases (n + 1 == 1)) [
        | inr later ↦ inl (ground (arith, given, cell, later))
        | inl first ↦ elim (sv.counters.expire_atomic k (limit_seconds m) t s₁ k) [
          | inl same ↦ inl (ground (arith, given, cell, first, same))
          | inr new ↦ inr (ground (arith, given, cell, first, new, str_eq_self k))
        ]
      ]

  alive_dated : (t t' : Time) (c : Counter) → slot m t ≡ slot m t' → is_alive t' (dated t c) ≡ true
  alive_dated t t' c h = ground (arith, outlives m t t' h)

  pub count_request_judges :
      (t : Time) (n : ℕ) (w : World sv)
      → IsCounted t n w
      → Answers t w
      → (count_request decimal m rq t w).0 ≡ ok (judge m (n + 1))
  unfolding count_request Keys.incr Keys.expire_counter
  count_request_judges t n w h answers = ground (arith, (incr_counted t n w h answers).0)

  pub count_request-IsCounted :
      (t : Time) (n : ℕ) (w : World sv)
      → IsCounted t n w
      → Answers t w
      → IsCounted t (n + 1) (count_request decimal m rq t w).1
  count_request-IsCounted t n w h answers =
      let c₁ : Counter = record (counter t w) { n = n + 1 } in
      elim (counter_after t n w h answers) [
        | inl same ↦ record {
          count = ap (λ (c : Counter). c.n) same;
          alive = λ t' e. ap (is_alive t') same ∙ h.alive t' e;
        }
        | inr new ↦ record {
          count = ap (λ (c : Counter). c.n) new;
          alive = λ t' e. ap (is_alive t') new ∙ alive_dated t t' c₁ e;
        }
      ]
