-- ===== src/Engine/IdempotencyTracker/Remembered.antt =====
-- What `Check` and `GetResult` of the `IdempotencyTracker` find of a result that `Record` has kept.
use agentmsg.Prelude.{
  ℕ, ◌≤◌, ◌≡◌, inl, inr, ◌⊎◌, ◌↔◌, ◌<◌, ◌+◌, ◌*◌, Bool, true, Option, some, String, is_some,
  str_eq_self, Bool-cases, arith,
}
use agentmsg.Exec.{ok}
use agentmsg.Model.Scalars.{Time}
use agentmsg.Services.Redis.{second, expiring}
use agentmsg.Services.World.{Services, World}
use agentmsg.Repository.Keys
use agentmsg.Engine.IdempotencyTracker.{
  IdempotencyTracker, tracker_key, result_value, check, record_result, get_result,
}

module _ ⦃sv : Services⦄ (tr : IdempotencyTracker) where
  abbrev kept : World sv → Time → String → Option String
  kept w t k = sv.keys.value w.keys t (tracker_key k)

  record_result_keeps :
      (k result : String) (ttl : ℕ) (now : Time) (w : World sv)
      → (record_result tr k result ttl now w).0 ≡ ok tt
      → (t : Time) → now ≤ t
      → kept (record_result tr k result ttl now w).1 t k
        ≡ expiring (result_value tr.format result now) ttl now t
  unfolding record_result Keys.set_with_expiry
  record_result_keeps k result ttl now w h t later = elim (Bool-cases tr.redis) [
    | inl on ↦ ground (
      arith,
      on,
      h,
      sv.keys.set_done (tracker_key k) (result_value tr.format result now) ttl now w.keys
          (ground (arith, on, h)) t (tracker_key k) later,
      str_eq_self (tracker_key k),
    )
    | inr off ↦ absurd (ground (arith, off, h))
  ]

  check_tells :
      (k : String) (t : Time) (w : World sv) (b : Bool)
      → (check tr k t w).0 ≡ ok b
      → b ≡ is_some (kept w t k)
  unfolding check Keys.exists
  check_tells k t w b h = sv.keys.exists_done (tracker_key k) t w.keys b (ground arith)

  get_result_tells :
      (k : String) (t : Time) (w : World sv) (v : String)
      → (get_result tr k t w).0 ≡ ok v
      → kept w t k ≡ some v
  unfolding get_result Keys.get
  get_result_tells k t w v h =
      sv.keys.get_done (tracker_key k) t w.keys (some v)
        (Keys.found_ok (sv.keys.get (tracker_key k) t w.keys).0 v (ground (arith, h)))

  -- After a result was recorded, at any later time before another write: if `check` has an answer,
  -- it tells that the key is there exactly while the time to live, 0 for ever, lasts.
  pub check-record_result :
      (k result : String) (ttl : ℕ) (now t : Time) (w : World sv) (b : Bool)
      → (record_result tr k result ttl now w).0 ≡ ok tt
      → now ≤ t
      → (check tr k t (record_result tr k result ttl now w).1).0 ≡ ok b
      → b ≡ true ↔ (ttl ≡ 0) ⊎ (t < now + ttl * second)
  check-record_result k result ttl now t w b h later checked = grind (
    arith,
    check_tells k t (record_result tr k result ttl now w).1 b checked,
    record_result_keeps k result ttl now w h t later,
  )

  -- After a result was recorded, at any later time before another write: if `get_result` has an
  -- answer, it is the recorded result and the time of the recording, and the time to live, 0 for
  -- ever, still lasts.
  pub get_result-record_result :
      (k result : String) (ttl : ℕ) (now t : Time) (w : World sv) (v : String)
      → (record_result tr k result ttl now w).0 ≡ ok tt
      → now ≤ t
      → (get_result tr k t (record_result tr k result ttl now w).1).0 ≡ ok v
      → (v ≡ result_value tr.format result now) × ((ttl ≡ 0) ⊎ (t < now + ttl * second))
  get_result-record_result k result ttl now t w v h later found = ground (
    arith,
    get_result_tells k t (record_result tr k result ttl now w).1 v found,
    record_result_keeps k result ttl now w h t later,
  )
