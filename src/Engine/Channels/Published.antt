-- ===== src/Engine/Channels/Published.antt =====
-- What the publication loop has sent, and what it leaves alone.
use mathlib.Core.Path.{subst}
use mathlib.Core.List.{append_assoc}
use agentmsg.Prelude.{
  String, true, false, ap, sym, ◌∙◌, ◌++◌, Bool-cases, ◌≡◌, inl, inr, refl, List, [], ◌∷◌, All, In,
  arith,
}
use agentmsg.Exec.{ok, is_ok}
use agentmsg.Model.Scalars.{Uuid}
use agentmsg.Services.World.{Services, World}
use agentmsg.Engine.Channels.{agent_channel, publish, publish_each}

-- A log with more entries, the latest first.
abbrev pub Extends : {A : Type 0} → List A → List A → Type 0
Extends {A} old log = (more : List A) × (log ≡ more ++ old)

pub Extends-refl : {A : Type 0} (log : List A) → Extends log log
Extends-refl log = ([], refl)

pub Extends-trans :
    {A : Type 0} (old mid log : List A) → Extends old mid → Extends mid log → Extends old log
Extends-trans old mid log (xs, first) (ys, then) =
    (ys ++ xs, then ∙ ap (λ l. ys ++ l) first ∙ sym (append_assoc ys xs old))

module _ ⦃sv : Services⦄ where
  -- The log of a server that passed `text` on to every one of `ids`, in order.
  pub published : List Uuid → String → List (String × String) → List (String × String)
  published [] text log = log
  published (id ∷ ids) text log = published ids text ((agent_channel id, text) ∷ log)

  -- A loop that reports no error has published to every recipient, in order.
  pub publish_each_done :
      (ids : List Uuid) (text : String) (w : World sv)
      → (publish_each ids text w).0 ≡ ok tt
      → sv.channels.sent (publish_each ids text w).1.channels
        ≡ published ids text (sv.channels.sent w.channels)
  unfolding publish_each published
  publish_each_done [] text w h = refl
  publish_each_done (id ∷ ids) text w h =
      let w' : World sv = (publish (agent_channel id) text w).1 in
      ground (
        arith,
        sv.channels.publish_done (agent_channel id) text w.channels,
        publish_each_done ids text w',
      )

  -- Nothing but the channels changes.
  pub publish_each_frame :
      (ids : List Uuid) (text : String) (w : World sv)
      → (publish_each ids text w).1 ≡ record w { channels = (publish_each ids text w).1.channels }
  unfolding publish_each
  publish_each_frame [] text w = refl
  publish_each_frame (id ∷ ids) text w =
      ground (arith, publish_each_frame ids text (publish (agent_channel id) text w).1)

  -- The log only grows.
  published-In :
      (x : String × String) (ids : List Uuid) (text : String) (log : List (String × String))
      → In x log
      → In x (published ids text log)
  unfolding published
  published-In x [] text log h = h
  published-In x (id ∷ ids) text log h =
      published-In x ids text ((agent_channel id, text) ∷ log) (inr h)

  pub published-All :
      (ids : List Uuid) (text : String) (log : List (String × String))
      → All (λ id. In (agent_channel id, text) (published ids text log)) ids
  unfolding published
  published-All [] text log = tt
  published-All (id ∷ ids) text log = (
    published-In _ ids text _ (inl refl),
    published-All ids text ((agent_channel id, text) ∷ log),
  )

  publish-Extends :
      (channel text : String) (s : sv.channels.Store)
      → Extends (sv.channels.sent s) (sv.channels.sent (sv.channels.publish channel text s).1)
  publish-Extends channel text s = elim (sv.channels.publish_atomic channel text s) [
    | inl same ↦ ([], same)
    | inr more ↦ ((channel, text) ∷ [], more)
  ]

  publish_each_on :
      (id : Uuid) (ids : List Uuid) (text : String) (w : World sv)
      → is_ok (publish (agent_channel id) text w).0 ≡ true
      → publish_each ids text (publish (agent_channel id) text w).1 ≡ publish_each (id ∷ ids) text w
  unfolding publish_each
  publish_each_on id ids text w sent = ground (arith, sent)

  publish_each_off :
      (id : Uuid) (ids : List Uuid) (text : String) (w : World sv)
      → is_ok (publish (agent_channel id) text w).0 ≡ false
      → (publish (agent_channel id) text w).1 ≡ (publish_each (id ∷ ids) text w).1
  unfolding publish_each
  publish_each_off id ids text w failed = ground (arith, failed)

  -- Whatever the loop returns, what was sent before stays sent.
  pub publish_each-Extends :
      (ids : List Uuid) (text : String) (w : World sv)
      → Extends
          (sv.channels.sent w.channels)
          (sv.channels.sent (publish_each ids text w).1.channels)
  unfolding publish_each
  publish_each-Extends [] text w = Extends-refl (sv.channels.sent w.channels)
  publish_each-Extends (id ∷ ids) text w =
      let v : World sv = (publish (agent_channel id) text w).1 in
      let first = publish-Extends (agent_channel id) text w.channels in
      let others = publish_each-Extends ids text v in
      let Grown : World sv → Type 0 =
        λ x. Extends (sv.channels.sent w.channels) (sv.channels.sent x.channels) in
      elim (Bool-cases (is_ok (publish (agent_channel id) text w).0)) [
        | inl sent ↦ subst Grown (ap (λ r. r.1) (publish_each_on id ids text w sent)) (
            Extends-trans (sv.channels.sent w.channels) (sv.channels.sent v.channels) _ first
              others)
        | inr failed ↦ subst Grown (publish_each_off id ids text w failed) first
      ]
