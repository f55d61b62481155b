-- ===== src/Service/Idempotency/Claims.antt =====
-- A claim stands for its time to live, and no second claim is made until then.
use Prim.Native.String.{◌++◌ as str_append}
use agentmsg.Prelude.{
  ◌+◌, ◌*◌, ◌/◌, ◌≤◌, ◌<◌, ◌≡◌, Option, Bool, true, some, none, String, ltb, str_eq_self, inl, inr,
  if◌then◌else◌, Bool-cases, arith,
}
use agentmsg.Exec.{ok, Done-cases}
use agentmsg.Model.Scalars.{Uuid, Time}
use agentmsg.Services.Redis.{second}
use agentmsg.Services.World.{Services, World}
use agentmsg.Repository.Keys
use agentmsg.Service.Idempotency.{
  is_claimed, combined_key, claim, limit_claim, make_claim, check_and_set,
}

module _ ⦃sv : Services⦄ (format : Time → String) where
  abbrev pub claim_at : World sv → Time → String → Option String
  claim_at w t key = sv.keys.value w.keys t (combined_key format key)

  -- Does a claim that was made at `now` stand at `t`.
  abbrev pub stands : Time → Time → Time → Bool
  stands ttl now t = if ltb 0 ttl then ltb t (now + ttl / second * second) else true

  claim_kept :
      (key : String) (id : Uuid) (ttl now t : Time) (w : World sv)
      → (check_and_set format key id ttl now w).0 ≡ ok true
      → now ≤ t
      → claim_at (check_and_set format key id ttl now w).1 t key
        ≡ (if stands ttl now t then some (claim format id now) else none)
  unfolding check_and_set make_claim limit_claim Keys.get Keys.set Keys.expire
  claim_kept key id ttl now t w h later =
      let k = combined_key format key in
      let s₁ = (sv.keys.get k now w.keys).1 in
      let s₂ = (sv.keys.set k (claim format id now) 0 now s₁).1 in
      elim (Bool-cases (is_claimed (Keys.found (sv.keys.get k now w.keys).0))) [
        | inl old ↦ absurd (ground (arith, old, h))
        | inr new ↦ elim (Done-cases (sv.keys.set k (claim format id now) 0 now s₁).0) [
          | inr (x, failed) ↦ absurd (ground (arith, new, failed, h))
          | inl put ↦ elim (Bool-cases (ltb 0 ttl)) [
            | inr no_limit ↦ ground (
              arith,
              new,
              put,
              no_limit,
              sv.keys.set_done k (claim format id now) 0 now s₁ put t k later,
              str_eq_self k,
            )
            | inl limit ↦ elim (Done-cases (sv.keys.expire k (ttl / second) now s₂).0) [
              | inr (x, failed) ↦ absurd (ground (arith, new, put, limit, failed, h))
              | inl limited ↦ ground (
                arith,
                new,
                put,
                limit,
                limited,
                sv.keys.set_done k (claim format id now) 0 now s₁ put now k,
                sv.keys.expire_done k (ttl / second) now s₂ limited t k later,
                str_eq_self k,
              )
            ]
          ]
        ]
      ]

  -- With a time to live under a second, a claim is gone as soon as it is made.
  pub check_and_set_short :
      (key : String) (id : Uuid) (ttl now t : Time) (w : World sv)
      → 0 < ttl
      → ttl < second
      → (check_and_set format key id ttl now w).0 ≡ ok true
      → now ≤ t
      → claim_at (check_and_set format key id ttl now w).1 t key ≡ none
  check_and_set_short key id ttl now t w some_time short h later =
      ground (arith, claim_kept key id ttl now t w h later)
