-- ===== src/Engine/ExactlyOnce/Window.antt =====
-- Within the window a message with the same key is a duplicate, after it no longer.
use agentmsg.Prelude.{
  ◌+◌, ◌*◌, ◌≤◌, ◌<◌, ◌≡◌, ◌≢◌, inl, inr, ap, ◌∙◌, Bool, true, false, is_some, str_eq_self,
  Bool-cases, arith,
}
use agentmsg.Exec.{ok, is_ok, Done-cases, Result-cases}
use agentmsg.Model.Scalars.{Time}
use agentmsg.Model.Message.{Message}
use agentmsg.Services.Redis.{second, expiring}
use agentmsg.Services.World.{Services, World}
use agentmsg.Repository.Keys
use agentmsg.Engine.ExactlyOnce.{
  Codec, ExactlyOnceEngine, dedup_key, window_seconds, mark_as_processed, probe, settle,
  is_duplicate,
}

module _ ⦃sv : Services⦄ (c : Codec) (e : ExactlyOnceEngine) where
  -- `Exists` answered, rather than report an error.
  abbrev pub Answered : Time → Message → World sv → Type 0
  Answered now m w = is_ok (sv.keys.exists (dedup_key c m) now w.keys).0 ≡ true

  abbrev pub reads : World sv → Time → Message → Bool
  reads w t m = is_some (sv.keys.value w.keys t (dedup_key c m))

  -- An answer tells whether the key is there.
  pub exists_reads :
      (now : Time) (m : Message) (w : World sv)
      → Answered now m w
      → (sv.keys.exists (dedup_key c m) now w.keys).0 ≡ ok (reads w now m)
  exists_reads now m w h = elim (Result-cases (sv.keys.exists (dedup_key c m) now w.keys).0) [
    | inl (b, is) ↦ is ∙ ap ok (sv.keys.exists_done (dedup_key c m) now w.keys b is)
    | inr (x, failed) ↦ ground (arith, failed, h)
  ]

  -- A message that was let through is marked until the end of the window.
  first_marks :
      (now : Time) (m : Message) (w : World sv)
      → Answered now m w
      → (is_duplicate c e now m w).0 ≡ ok false
      → (t : Time) → now ≤ t
      → reads (is_duplicate c e now m w).1 t m
        ≡ is_some (expiring (c.marshal m) (window_seconds e.deduplication_window) now t)
  unfolding is_duplicate probe settle mark_as_processed Keys.exists Keys.set_with_expiry
  first_marks now m w answered h t later =
      let k = dedup_key c m in
      let w₁ = (sv.keys.exists k now w.keys).1 in
      let n = window_seconds e.deduplication_window in
      elim (Bool-cases (reads w now m)) [
        | inl seen ↦ absurd (ground (arith, exists_reads now m w answered, seen, h))
        | inr fresh ↦ elim (Done-cases (sv.keys.set k (c.marshal m) n now w₁).0) [
          | inr (x, failed) ↦
              absurd (ground (arith, exists_reads now m w answered, fresh, failed, h))
          | inl done ↦ elim (Bool-cases e.redis) [
            | inr off ↦ absurd (ground (arith, off, h))
            | inl on ↦ ground (
              arith,
              on,
              exists_reads now m w answered,
              fresh,
              done,
              sv.keys.set_done k (c.marshal m) n now w₁ done t k later,
              str_eq_self k,
            )
          ]
        ]
      ]

  -- What a later call returns.
  second_reads :
      (t : Time) (m : Message) (w : World sv)
      → e.redis ≡ true
      → Answered t m w
      → reads w t m ≡ true
      → (is_duplicate c e t m w).0 ≡ ok true
  unfolding is_duplicate probe settle Keys.exists
  second_reads t m w on answered h = ground (arith, exists_reads t m w answered)

  let_through_on :
      (now : Time) (m : Message) (w : World sv)
      → (is_duplicate c e now m w).0 ≡ ok false
      → e.redis ≡ true
  unfolding is_duplicate
  let_through_on now m w h = ground arith

  -- What a later call with the same key reads, after a message was let through.
  reads_later :
      (now t : Time) (m m' : Message) (w : World sv)
      → dedup_key c m' ≡ dedup_key c m
      → now ≤ t
      → Answered now m w
      → (is_duplicate c e now m w).0 ≡ ok false
      → reads (is_duplicate c e now m w).1 t m'
        ≡ is_some (expiring (c.marshal m) (window_seconds e.deduplication_window) now t)
  reads_later now t m m' w same later answered h =
      ap (λ k. is_some (sv.keys.value (is_duplicate c e now m w).1.keys t k)) same
      ∙ first_marks now m w answered h t later

  -- Two messages with one key: the second is a duplicate if the first was let through and the
  -- window has not passed since, provided that Redis answers both times.
  pub is_duplicate_within :
      (now t : Time) (m m' : Message) (w : World sv)
      → dedup_key c m' ≡ dedup_key c m
      → now ≤ t
      → t < now + window_seconds e.deduplication_window * second
      → Answered now m w
      → (is_duplicate c e now m w).0 ≡ ok false
      → Answered t m' (is_duplicate c e now m w).1
      → (is_duplicate c e t m' (is_duplicate c e now m w).1).0 ≡ ok true
  is_duplicate_within now t m m' w same later soon answered h answered' =
      second_reads t m' (is_duplicate c e now m w).1 (let_through_on now m w h) answered'
        (ground (arith, reads_later now t m m' w same later answered h))

  -- Two messages with one key, the first of which was let through: from the end of a window of at
  -- least a second on, the second is no duplicate, provided that Redis answers both times.
  pub is_duplicate_after :
      (now t : Time) (m m' : Message) (w : World sv)
      → dedup_key c m' ≡ dedup_key c m
      → 0 < window_seconds e.deduplication_window
      → now + window_seconds e.deduplication_window * second ≤ t
      → Answered now m w
      → (is_duplicate c e now m w).0 ≡ ok false
      → Answered t m' (is_duplicate c e now m w).1
      → (is_duplicate c e t m' (is_duplicate c e now m w).1).0 ≢ ok true
  unfolding is_duplicate probe settle Keys.exists
  is_duplicate_after now t m m' w same some_window late answered h answered' hit =
      let w₁ : World sv = (is_duplicate c e now m w).1 in
      let gone : reads w₁ t m' ≡ false =
        ground (arith, reads_later now t m m' w same (omega (arith, late)) answered h) in
      ground (arith, let_through_on now m w h, exists_reads t m' w₁ answered', gone, hit)

  window_seconds_none : (window : Time) → 0 < window → window < second → window_seconds window ≡ 0
  unfolding window_seconds
  window_seconds_none window h k = ground arith

  -- With a window of less than a second, a message with the key of one that was let through is a
  -- duplicate at any later time, provided that Redis answers both times.
  pub is_duplicate_forever :
      (now t : Time) (m m' : Message) (w : World sv)
      → dedup_key c m' ≡ dedup_key c m
      → 0 < e.deduplication_window
      → e.deduplication_window < second
      → now ≤ t
      → Answered now m w
      → (is_duplicate c e now m w).0 ≡ ok false
      → Answered t m' (is_duplicate c e now m w).1
      → (is_duplicate c e t m' (is_duplicate c e now m w).1).0 ≡ ok true
  is_duplicate_forever now t m m' w same some_window short later answered h answered' =
      second_reads t m' (is_duplicate c e now m w).1 (let_through_on now m w h) answered' (
        ground (
          arith,
          window_seconds_none e.deduplication_window some_window short,
          reads_later now t m m' w same later answered h,
        ))
