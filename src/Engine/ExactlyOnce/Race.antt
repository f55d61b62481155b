-- ===== src/Engine/ExactlyOnce/Race.antt =====
-- Two calls of `IsDuplicate` whose halves interleave.
use agentmsg.Prelude.{◌≡◌, ap, ◌∙◌, true, false, is_some, arith}
use agentmsg.Exec.{ok, is_ok}
use agentmsg.Model.Scalars.{Time}
use agentmsg.Model.Message.{Message}
use agentmsg.Services.World.{Services, World}
use agentmsg.Repository.Keys
use agentmsg.Engine.ExactlyOnce.{Codec, ExactlyOnceEngine, dedup_key, probe, settle}
use agentmsg.Engine.ExactlyOnce.Window.{Answered, reads, exists_reads}

module _ ⦃sv : Services⦄ (c : Codec) (e : ExactlyOnceEngine) where
  -- The world after both calls have asked, and then after the first has marked its message.
  abbrev pub both_asked : Time → Message → Message → World sv → World sv
  both_asked now m m' w = (probe c e now m' (probe c e now m w).1).1

  abbrev pub first_settled : Time → Message → Message → World sv → World sv
  first_settled now m m' w = (settle c e now m (ok false) (both_asked now m m' w)).1

  reads-probe :
      (now t : Time) (m m' : Message) (w : World sv)
      → reads c e (probe c e now m w).1 t m' ≡ reads c e w t m'
  unfolding probe Keys.exists
  reads-probe now t m m' w =
      ap (λ f. is_some (f t (dedup_key c m'))) (sv.keys.value-exists (dedup_key c m) now w.keys)

  probe_tells :
      (now : Time) (m : Message) (w : World sv)
      → Answered c e now m w
      → (probe c e now m w).0 ≡ ok (ok (reads c e w now m))
  unfolding probe Keys.exists
  probe_tells now m w h = ap ok (exists_reads c e now m w h)

  settle_lets :
      (now : Time) (m : Message) (w : World sv)
      → is_ok (settle c e now m (ok false) w).0 ≡ true
      → (settle c e now m (ok false) w).0 ≡ ok false
  unfolding settle
  settle_lets now m w h = ground arith

  -- Two calls for one key that ask before either has marked it: both are told that the key is new,
  -- and both let their message through unless Redis fails.
  pub both_let_through :
      (now : Time) (m m' : Message) (w : World sv)
      → dedup_key c m' ≡ dedup_key c m
      → reads c e w now m ≡ false
      → Answered c e now m w
      → Answered c e now m' (probe c e now m w).1
      → is_ok (settle c e now m (ok false) (both_asked now m m' w)).0 ≡ true
      → is_ok (settle c e now m' (ok false) (first_settled now m m' w)).0 ≡ true
      → ((probe c e now m w).0 ≡ ok (ok false))
        × ((probe c e now m' (probe c e now m w).1).0 ≡ ok (ok false))
        × ((settle c e now m (ok false) (both_asked now m m' w)).0 ≡ ok false)
        × ((settle c e now m' (ok false) (first_settled now m m' w)).0 ≡ ok false)
  both_let_through now m m' w same new h h' k k' =
      let still : reads c e (probe c e now m w).1 now m' ≡ false =
        reads-probe now now m m' w ∙ ap (λ j. is_some (sv.keys.value w.keys now j)) same ∙ new in
      (
        probe_tells now m w h ∙ ap (λ b. ok (ok b)) new,
        probe_tells now m' (probe c e now m w).1 h' ∙ ap (λ b. ok (ok b)) still,
        settle_lets now m (both_asked now m m' w) k,
        settle_lets now m' (first_settled now m m' w) k',
      )
