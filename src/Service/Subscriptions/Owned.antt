-- ===== src/Service/Subscriptions/Owned.antt =====
-- Which subscriptions an agent is given.

use text.Mathlib.TextLemmas.{append_cancel_left}
use agentmsg.Prelude.{
  ◌≡◌, inl, inr, refl, sym, ap, ◌∙◌, Option, none, some, String, List, [], ◌∷◌, All, All-map, In,
  arith,
}
use agentmsg.Exec.{ok, Result-cases}
use agentmsg.Model.Scalars.{Uuid}
use agentmsg.Model.Subscription.{Subscription}
use agentmsg.Services.World.{SubscriptionItem, Services, World}
use agentmsg.Repository.Subscriptions
use agentmsg.Repository.Subscriptions.{subscriptions_key, decode_all}
use agentmsg.Service.Messages.{MessageService}
use agentmsg.Service.Subscriptions.{list_subscriptions}

module _ ⦃sv : Services⦄ where
  abbrev pub field_of : World sv → Uuid → String → Option SubscriptionItem
  field_of w agent f = sv.subscriptions.field w.subscriptions (subscriptions_key agent) f

  -- Every subscription stands in the hash of its agent, under its identifier.
  abbrev pub IsFiled : World sv → Type 0
  IsFiled w =
      (agent : Uuid) (f : String) (x : Subscription)
      → field_of w agent f ≡ some (SubscriptionItem.subscription x)
      → (x.agent_id ≡ agent) × (f ≡ sv.uuids.text x.id)

  pub text_injective : (a b : Uuid) → sv.uuids.text a ≡ sv.uuids.text b → a ≡ b
  text_injective a b h =
      let e : some a ≡ some b =
        sym (sv.uuids.parse-text a) ∙ ap sv.uuids.parse h ∙ sv.uuids.parse-text b in
      cc

  key_injective : (a b : Uuid) → subscriptions_key a ≡ subscriptions_key b → a ≡ b
  key_injective a b h = text_injective a b (append_cancel_left "subscriptions:" _ _ h)

  pub create-IsFiled :
      (s : Subscription) (w : World sv) → IsFiled w → IsFiled (Subscriptions.create s w).1
  unfolding Subscriptions.create
  create-IsFiled s w filed agent f x h =
      elim (sv.subscriptions.hset_atomic (subscriptions_key s.agent_id) (sv.uuids.text s.id)
        (SubscriptionItem.subscription s) w.subscriptions (subscriptions_key agent) f) [
          | inl same ↦ filed agent f x (sym same ∙ h)
          | inr (key, name, put) ↦
              let e : some (SubscriptionItem.subscription s)
                  ≡ some (SubscriptionItem.subscription x) =
                sym put ∙ h in
              let same : s ≡ x = cc in
              (
                ap (λ y. y.agent_id) (sym same) ∙ sym (key_injective agent s.agent_id key),
                name ∙ ap (λ y. sv.uuids.text y.id) same,
              )
        ]

  pub delete-IsFiled :
      (agent id : Uuid) (w : World sv) → IsFiled w → IsFiled (Subscriptions.delete agent id w).1
  unfolding Subscriptions.delete
  delete-IsFiled agent id w filed a f x h =
      elim (sv.subscriptions.hdel_atomic (subscriptions_key agent) (sv.uuids.text id)
        w.subscriptions (subscriptions_key a) f) [
          | inl same ↦ filed a f x (sym same ∙ h)
          | inr (key, name, gone) ↦
              let e : none ≡ some (SubscriptionItem.subscription x) = sym gone ∙ h in cc
        ]

  decode_all-All :
      (P : Subscription → Type 0) (l : List (String × SubscriptionItem))
      → All (λ e. (x : Subscription) → e.1 ≡ SubscriptionItem.subscription x → P x) l
      → All P (decode_all l)
  unfolding decode_all
  decode_all-All P [] h = tt
  decode_all-All P ((f, SubscriptionItem.subscription x) ∷ l) h =
      (h.0 x refl, decode_all-All P l h.1)
  decode_all-All P ((f, SubscriptionItem.garbled t) ∷ l) h = decode_all-All P l h.1

  In-decode_all :
      (f : String) (x : Subscription) (l : List (String × SubscriptionItem))
      → In (f, SubscriptionItem.subscription x) l
      → In x (decode_all l)
  unfolding decode_all
  In-decode_all f x [] m = m
  In-decode_all f x ((g, SubscriptionItem.subscription y) ∷ l) (inl e) = inl (cc)
  In-decode_all f x ((g, SubscriptionItem.subscription y) ∷ l) (inr m) = inr (In-decode_all f x l m)
  In-decode_all f x ((g, SubscriptionItem.garbled t) ∷ l) (inl e) =
      let e' : SubscriptionItem.subscription x ≡ SubscriptionItem.garbled t = ap (λ p. p.1) e in cc
  In-decode_all f x ((g, SubscriptionItem.garbled t) ∷ l) (inr m) = In-decode_all f x l m

  -- What a list that was given holds.
  abbrev pub Listed : MessageService → World sv → Uuid → List Subscription → Type 0
  Listed s w agent l = (list_subscriptions s agent w).0 ≡ ok l

  list_subscriptions-Listed :
      (s : MessageService) (w : World sv) (agent : Uuid) (l : List Subscription)
      → Listed s w agent l
      → (es : List (String × SubscriptionItem)) × ((sv.subscriptions.hgetall
            (subscriptions_key agent)
            w.subscriptions).0
          ≡ ok es)
        × (l ≡ decode_all es)
  unfolding list_subscriptions Subscriptions.list
  list_subscriptions-Listed s w agent l h =
      elim (Result-cases (sv.subscriptions.hgetall (subscriptions_key agent) w.subscriptions).0) [
        | inl (es, given) ↦ (es, given, ground (arith, given, h))
        | inr (e, failed) ↦ absurd (ground (arith, failed, h))
      ]

  -- Each of them is a field of the agent's hash.
  pub Listed-All :
      (s : MessageService) (w : World sv) (agent : Uuid) (l : List Subscription)
      → Listed s w agent l
      → (P : Subscription → Type 0)
      → ((f : String) (x : Subscription)
          → field_of w agent f ≡ some (SubscriptionItem.subscription x)
          → P x)
      → All P l
  Listed-All s w agent l h P known =
      let (es, given, from) = list_subscriptions-Listed s w agent l h in
      let step : (e : String × SubscriptionItem)
          → field_of w agent e.0 ≡ some e.1
          → (x : Subscription) → e.1 ≡ SubscriptionItem.subscription x
          → P x =
        λ e held x same. known e.0 x (held ∙ ap some same) in
      rw from (
        decode_all-All P es (
          All-map step es
            (sv.subscriptions.hgetall_sound (subscriptions_key agent) w.subscriptions es given)))

  pub Listed-In :
      (s : MessageService) (w : World sv) (agent : Uuid) (l : List Subscription) (f : String)
      (x : Subscription)
      → Listed s w agent l
      → field_of w agent f ≡ some (SubscriptionItem.subscription x)
      → In x l
  Listed-In s w agent l f x h held =
      let (es, given, from) = list_subscriptions-Listed s w agent l h in
      rw from (
        In-decode_all f x es (
          sv.subscriptions.hgetall_complete (subscriptions_key agent) w.subscriptions es f
            (SubscriptionItem.subscription x) given held))
