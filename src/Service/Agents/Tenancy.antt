-- ===== src/Service/Agents/Tenancy.antt =====
-- The methods that act for a tenant leave the agents of other tenants alone, and what they return
-- tells whether the tenant has the agent.
use agentmsg.Prelude.{
  ◌<◌, ◌≡◌, ◌⊎◌, inl, inr, refl, ap, ◌∙◌, true, not, Option, none, some, List, [], ◌∷◌, length,
  filter, ltb, ◌==◌, Bool-cases, arith,
}
use agentmsg.Exec.{Error, ok, err, Result-cases}
use agentmsg.Model.Scalars.{Uuid, Time}
use agentmsg.Model.Agent.{Agent, AgentStatus}
use agentmsg.Services.Table.{update_rows}
use agentmsg.Services.World.{AgentRow, Services, World}
use agentmsg.Repository.Statements.{rows_affected}
use agentmsg.Repository.Agents.{is_of_tenant, with_update, with_deletion, with_status}
use agentmsg.Repository.Agents
use agentmsg.Service.Agents.{
  AgentService, update_for_tenant, delete_for_tenant, heartbeat_for_tenant,
}

-- The rows of the other tenants.
abbrev pub others : Uuid → List AgentRow → List AgentRow
others tenant rows = filter (λ r. not (r.tenant_id == tenant)) rows

-- A change to agents of the tenant, which keeps their tenant.
others-update_rows :
    (tenant id : Uuid) (f : AgentRow → AgentRow)
    → ((r : AgentRow) → (f r).tenant_id ≡ r.tenant_id)
    → (rows : List AgentRow)
    → others tenant (update_rows (is_of_tenant tenant id) f rows) ≡ others tenant rows
unfolding is_of_tenant
others-update_rows tenant id f keeps [] = refl
others-update_rows tenant id f keeps (r ∷ rows) = elim (Bool-cases (is_of_tenant tenant id r)) [
  | inl hit ↦ ground (arith, hit, keeps r, others-update_rows tenant id f keeps rows)
  | inr miss ↦ ground (arith, miss, others-update_rows tenant id f keeps rows)
]

module _ ⦃sv : Services⦄ where
  abbrev pub rows_of : World sv → List AgentRow
  rows_of w = sv.agents.rows w.agents

  -- The rows after a statement on one agent of a tenant.
  others-atomic :
      (tenant id : Uuid) (f : AgentRow → AgentRow) (w : World sv)
      → ((r : AgentRow) → (f r).tenant_id ≡ r.tenant_id)
      → others tenant (sv.agents.rows (sv.agents.update (is_of_tenant tenant id) f w.agents).1)
        ≡ others tenant (rows_of w)
  others-atomic tenant id f w keeps =
      elim (sv.agents.update_atomic (is_of_tenant tenant id) f w.agents) [
        | inl same ↦ ap (others tenant) same
        | inr changed ↦
            ap (others tenant) changed ∙ others-update_rows tenant id f keeps (rows_of w)
      ]

module _ ⦃sv : Services⦄ (s : AgentService) where
  update-others :
      (now : Time) (tenant : Uuid) (given : Option Agent) (w : World sv)
      → others tenant (rows_of (update_for_tenant s now tenant given w).1)
        ≡ others tenant (rows_of w)
  unfolding update_for_tenant Agents.update_for_tenant rows_affected
  update-others now tenant none w = ground arith
  update-others now tenant (some a) w = ground (
    arith,
    others-atomic tenant a.id (with_update (record a { updated_at = now })) w
        (λ r. unfold with_update in refl),
  )

  delete-others :
      (now : Time) (tenant id : Uuid) (w : World sv)
      → others tenant (rows_of (delete_for_tenant s now tenant id w).1) ≡ others tenant (rows_of w)
  unfolding delete_for_tenant Agents.delete_for_tenant rows_affected
  delete-others now tenant id w =
      ground
        (arith, others-atomic tenant id (with_deletion now) w (λ r. unfold with_deletion in refl))

  heartbeat-others :
      (now : Time) (tenant id : Uuid) (w : World sv)
      → others tenant (rows_of (heartbeat_for_tenant s now tenant id w).1)
        ≡ others tenant (rows_of w)
  unfolding heartbeat_for_tenant Agents.update_status_for_tenant rows_affected
  heartbeat-others now tenant id w = ground (
    arith,
    others-atomic tenant id (with_status AgentStatus.online now) w
        (λ r. unfold with_status in refl),
  )

  -- Updating, deleting and heartbeats for a tenant leave the rows of all other tenants as they are,
  -- whatever the call returns.
  pub for_tenant-others :
      (now : Time) (tenant id : Uuid) (given : Option Agent) (w : World sv)
      → (others tenant (rows_of (update_for_tenant s now tenant given w).1)
          ≡ others tenant (rows_of w))
        × (others tenant (rows_of (delete_for_tenant s now tenant id w).1)
            ≡ others tenant (rows_of w))
        × (others tenant (rows_of (heartbeat_for_tenant s now tenant id w).1)
            ≡ others tenant (rows_of w))
  for_tenant-others now tenant id given w = (
    update-others now tenant given w,
    delete-others now tenant id w,
    heartbeat-others now tenant id w,
  )

  -- A heartbeat for a tenant, by a service with a repository: it is accepted, and marks the live agent
  -- of the tenant, which there is, as online; or it reports that there is no agent, and there is none;
  -- or it returns the error that the database reported.
  pub heartbeat_for_tenant_outcome :
      (now : Time) (tenant id : Uuid) (w : World sv)
      → s.repo ≡ true
      → let (r, w') = heartbeat_for_tenant s now tenant id w in
        let mine = filter (is_of_tenant tenant id) (rows_of w) in
        ((r ≡ ok tt)
          × (0 < length mine)
          × (rows_of w'
              ≡ update_rows
                  (is_of_tenant tenant id)
                  (with_status AgentStatus.online now)
                  (rows_of w)))
        ⊎ (((r ≡ err Error.agent_not_found) × (length mine ≡ 0))
            ⊎ ((x : Error) × ((sv.agents.update
                    (is_of_tenant tenant id)
                    (with_status AgentStatus.online now)
                    w.agents).0
                  ≡ err x)
                × (r ≡ err x)))
  unfolding heartbeat_for_tenant Agents.update_status_for_tenant rows_affected
  heartbeat_for_tenant_outcome now tenant id w on =
      let p = is_of_tenant tenant id in
      let f = with_status AgentStatus.online now in
      elim (Result-cases (sv.agents.update p f w.agents).0) [
        | inr (x, failed) ↦ inr (inr (x, failed, ground (arith, on, failed)))
        | inl (n, done) ↦
            let count : n ≡ length (filter p (rows_of w)) =
              sv.agents.update_count p f w.agents n done in
            elim (Bool-cases (ltb 0 n)) [
              | inl hit ↦ inl (
                ground (arith, on, done, hit),
                ground (arith, hit, count),
                ground (arith, on, done, hit, sv.agents.update_done p f w.agents),
              )
              | inr miss ↦ inr (inl (ground (arith, on, done, miss), ground (arith, miss, count)))
            ]
      ]
