-- ===== src/Service/Subscriptions/Listed.antt =====
-- What an agent is given after it has subscribed, or cancelled.
use agentmsg.Prelude.{ℕ, ◌≡◌, ◌≢◌, sym, ap, ◌∙◌, true, none, some, List, All, In, arith}
use agentmsg.Exec.{ok}
use agentmsg.Model.Scalars.{Uuid}
use agentmsg.Model.Subscription.{Subscription}
use agentmsg.Services.World.{SubscriptionItem, Services, World}
use agentmsg.Repository.Subscriptions
use agentmsg.Repository.Subscriptions.{subscriptions_key}
use agentmsg.Service.Messages.{MessageService}
use agentmsg.Service.Subscriptions.{
  dated, create_subscription, list_subscriptions, delete_subscription,
}
use agentmsg.Service.Subscriptions.Owned.{
  field_of, IsFiled, create-IsFiled, delete-IsFiled, Listed-All, Listed-In,
}

module _ ⦃sv : Services⦄ (s : MessageService) where
  -- Where every subscription stands under its agent and its identifier: after a subscription was
  -- stored this still holds, and a list for its agent that has an answer holds it, with the date
  -- filled in, and only subscriptions of that agent.
  pub list_subscriptions-create_subscription :
      (unix : ℕ) (sub : Subscription) (w : World sv) (l : List Subscription)
      → IsFiled w
      → (create_subscription s unix (some sub) w).0 ≡ ok tt
      → (list_subscriptions s sub.agent_id (create_subscription s unix (some sub) w).1).0 ≡ ok l
      → IsFiled (create_subscription s unix (some sub) w).1
        × In (dated unix sub) l
        × All (λ x. x.agent_id ≡ sub.agent_id) l
  unfolding create_subscription Subscriptions.create dated
  list_subscriptions-create_subscription unix sub w l filed h listed =
      let w' : World sv = (create_subscription s unix (some sub) w).1 in
      let x : Subscription = dated unix sub in
      let on : s.redis ≡ true = ground arith in
      let moved : w' ≡ (Subscriptions.create x w).1 = ground (arith, on) in
      let filed' : IsFiled w' = rw moved (create-IsFiled x w filed) in
      let put =
        sv.subscriptions.hset_done (subscriptions_key sub.agent_id) (sv.uuids.text sub.id)
          (SubscriptionItem.subscription x) w.subscriptions (ground (arith, on, h)) in
      let held : field_of w' sub.agent_id (sv.uuids.text sub.id)
          ≡ some (SubscriptionItem.subscription x) =
        ground (arith, on, put) in
      (
        filed',
        Listed-In s w' sub.agent_id l (sv.uuids.text sub.id) x listed held,
        Listed-All s w' sub.agent_id l listed (λ y. y.agent_id ≡ sub.agent_id)
            (λ f y at_f. (filed' sub.agent_id f y at_f).0),
      )

  -- Where every subscription stands under its agent and its identifier: after a subscription was
  -- deleted this still holds, and a list for the agent that has an answer holds only other
  -- subscriptions of that agent.
  pub list_subscriptions-delete_subscription :
      (agent id : Uuid) (w : World sv) (l : List Subscription)
      → IsFiled w
      → (delete_subscription s agent id w).0 ≡ ok tt
      → (list_subscriptions s agent (delete_subscription s agent id w).1).0 ≡ ok l
      → IsFiled (delete_subscription s agent id w).1
        × All (λ x. (x.agent_id ≡ agent) × (x.id ≢ id)) l
  unfolding delete_subscription Subscriptions.delete
  list_subscriptions-delete_subscription agent id w l filed h listed =
      let w' : World sv = (delete_subscription s agent id w).1 in
      let on : s.redis ≡ true = ground arith in
      let moved : w' ≡ (Subscriptions.delete agent id w).1 = ground (arith, on) in
      let filed' : IsFiled w' = rw moved (delete-IsFiled agent id w filed) in
      let gone =
        sv.subscriptions.hdel_done (subscriptions_key agent) (sv.uuids.text id) w.subscriptions
          (ground (arith, on, h)) in
      let empty : field_of w' agent (sv.uuids.text id) ≡ none = ground (arith, on, gone) in
      (
        filed',
        Listed-All s w' agent l listed (λ x. (x.agent_id ≡ agent) × (x.id ≢ id))
            (λ f y at_f.
              let (owner, name) = filed' agent f y at_f in
              (
                owner,
                λ same.
                    let e : none ≡ some (SubscriptionItem.subscription y) =
                      sym empty
                      ∙ ap (field_of w' agent) (ap sv.uuids.text (sym same) ∙ sym name)
                      ∙ at_f in
                    cc,
              )),
      )
