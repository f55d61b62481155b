-- ===== src/Middleware/RateLimit/Window.antt =====
-- All the requests of one agent to one path in one window.
use agentmsg.Prelude.{
  ℕ, zero, suc, ◌+◌, ◌-◌, ◌≡◌, refl, sym, ap, ◌∙◌, Bool, true, false, not, ◌||◌, none, String, List,
  [], ◌∷◌, All, length, str_eq, ltb, arith,
}
use agentmsg.Exec.{Result, ok, err}
use agentmsg.Model.Scalars.{Time}
use agentmsg.Services.Redis.{Counter, is_alive}
use agentmsg.Services.World.{Services, World}
use agentmsg.Middleware.{Middleware}
use agentmsg.Middleware.RateLimit.{
  Request, Limited, slot, limit_key, judge, count_request, rate_limit,
}
use agentmsg.Middleware.RateLimit.Counts.{
  counter, IsCounted, Answers, count_request_judges, count_request-IsCounted,
}

-- `k` answers of which the first `room` are yes.
unfoldable pub first_pass : (room k : ℕ) → List Bool
first_pass room zero = []
first_pass zero (suc k) = false ∷ first_pass zero k
first_pass (suc room) (suc k) = true ∷ first_pass room k

abbrev pub passes : Result Limited → Bool
passes (ok (Limited.passed _)) = true
passes (ok (Limited.rejected _)) = false
passes (err _) = false

-- The request has an agent and a tenant, and there is a Redis to count it.
unfoldable pub is_limited : Middleware → Request → Bool
is_limited m rq = not (not m.redis || (str_eq rq.agent_id "" || str_eq rq.tenant_id ""))

first_pass_step :
    (limit n k room : ℕ)
    → room ≡ limit - n
    → first_pass room (suc k) ≡ ltb n limit ∷ first_pass (limit - (n + 1)) k
unfolding first_pass
first_pass_step limit n k zero h =
    let none_left : limit - (n + 1) ≡ 0 = omega (arith, h) in
    let full : ltb n limit ≡ false = ground (arith, h) in rw (none_left, full)
first_pass_step limit n k (suc room) h =
    let one_less : limit - (n + 1) ≡ room = omega (arith, h) in
    let free : ltb n limit ≡ true = ground (arith, h) in rw (one_less, free)

module _ ⦃sv : Services⦄ (decimal : ℕ → String) (m : Middleware) (rq : Request) where
  -- Which of the requests at the given times pass.
  unfoldable pub verdicts : List Time → World sv → List Bool
  verdicts [] w = []
  verdicts (t ∷ ts) w =
      let rest = verdicts ts (rate_limit decimal m rq t w).1 in
      passes (rate_limit decimal m rq t w).0 ∷ rest

  -- Redis answers each of them.
  unfoldable pub AllAnswer : List Time → World sv → Type 0
  AllAnswer [] w = Unit
  AllAnswer (t ∷ ts) w = Answers decimal m rq t w × AllAnswer ts (rate_limit decimal m rq t w).1

  rate_limit_counts :
      (t : Time) (w : World sv)
      → is_limited m rq ≡ true
      → rate_limit decimal m rq t w ≡ count_request decimal m rq t w
  unfolding rate_limit is_limited
  rate_limit_counts t w h = ground (arith, h)

  limit_key-slot :
      (t t' : Time) → slot m t ≡ slot m t' → limit_key decimal m rq t ≡ limit_key decimal m rq t'
  unfolding limit_key
  limit_key-slot t t' h = rw h

  IsCounted-slot :
      (t t' : Time) (n : ℕ) (w : World sv)
      → slot m t ≡ slot m t'
      → IsCounted decimal m rq t n w
      → IsCounted decimal m rq t' n w
  IsCounted-slot t t' n w h c =
      let same = ap (sv.counters.cell w.counters) (limit_key-slot t t' h) in
      record {
        count = sym (ap (λ (x : Counter). x.n) same) ∙ c.count;
        alive = λ u e. sym (ap (is_alive u) same) ∙ c.alive u (h ∙ e);
      }

  passes-judge : (n : ℕ) → passes (ok (judge m (n + 1))) ≡ ltb n m.rate_limit_requests
  unfolding judge
  passes-judge n = ground arith

  verdicts_from :
      (t : Time) (ts : List Time) (n : ℕ) (w : World sv)
      → is_limited m rq ≡ true
      → All (λ t'. slot m t ≡ slot m t') ts
      → IsCounted decimal m rq t n w
      → AllAnswer ts w
      → verdicts ts w ≡ first_pass (m.rate_limit_requests - n) (length ts)
  unfolding verdicts AllAnswer
  verdicts_from t [] n w on same c answers = unfold first_pass in ground arith
  verdicts_from t (t' ∷ ts) n w on same c answers =
      let here = IsCounted-slot t t' n w same.0 c in
      let run = rate_limit_counts t' w on in
      let w' : World sv = (rate_limit decimal m rq t' w).1 in
      let counted : IsCounted decimal m rq t' (n + 1) w' =
        rw run (count_request-IsCounted decimal m rq t' n w here answers.0) in
      let verdict : passes (rate_limit decimal m rq t' w).0 ≡ ltb n m.rate_limit_requests =
        rw (run, count_request_judges decimal m rq t' n w here answers.0) (passes-judge n) in
      let rest =
        verdicts_from t ts (n + 1) w' on same.1
          (IsCounted-slot t' t (n + 1) w' (sym same.0) counted) answers.1 in
      rw (first_pass_step m.rate_limit_requests n (length ts) _ refl, verdict, rest)

  -- Requests of an agent of a tenant to a path within one window, counted by a Redis that answers
  -- all of them and had no counter for the window: exactly the first ones pass, up to the limit.
  pub rate_limit_window :
      (t : Time) (ts : List Time) (w : World sv)
      → is_limited m rq ≡ true
      → All (λ t'. slot m t ≡ slot m t') ts
      → counter decimal m rq t w ≡ record { n = 0; deadline = none }
      → AllAnswer ts w
      → verdicts ts w ≡ first_pass m.rate_limit_requests (length ts)
  rate_limit_window t ts w on same new answers =
      let whole : m.rate_limit_requests - 0 ≡ m.rate_limit_requests = omega arith in
      verdicts_from t ts 0 w on same
        (record { count = ap (λ (c : Counter). c.n) new; alive = λ t' _. ap (is_alive t') new })
        answers
      ∙ ap (λ room. first_pass room (length ts)) whole
