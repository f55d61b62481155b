-- ===== src/Middleware/Audit/Recorded.antt =====
-- What `AuditLog` records of a request.
use mathlib.Core.Path.{subst}
use agentmsg.Repository.Agents.{is_live}
use mathlib.Core.List.{map-append}
use agentmsg.Prelude.{
  ◌==◌, ◌&&◌, ◌≡◌, ◌⊎◌, In, refl, inl, inr, ap, ◌∙◌, Bool, true, false, ◌||◌, Option, none, some,
  String, List, [], ◌∷◌, ◌++◌, map, is_some, str_eq, Bool-cases, Option-cases, if◌then◌else◌, arith,
}
use agentmsg.Exec.{ok, Exec, Result-cases}
use agentmsg.Model.Scalars.{Uuid, Time}
use agentmsg.Model.Audit.{AuditLog}
use agentmsg.Services.World.{Services, World}
use agentmsg.Repository.Identities.{tenant_exists, agent_exists}
use agentmsg.Repository.AuditLogs.{create_audit_log}
use agentmsg.Middleware.Authenticate.Granted.{HasTenant, HasAgent, tenant_found, agent_found}
use agentmsg.Middleware.Audit.{
  Reference, unresolved, resolve_parsed, resolve_audit_reference, resolve_audit_tenant_id,
  resolve_audit_agent_id,
}
use agentmsg.Middleware.Audit.Actions.{is_audit_method, audit_action}
use agentmsg.Middleware.Audit.Entries.{
  Handled, audit_log, store_entry, entry_of, claim_of, route_path,
}

abbrev pub OnSome : {A : Type 0} → (A → Type 0) → Option A → Type 0
OnSome P none = Unit
OnSome P (some a) = P a

-- A name in the metadata for a reference that has a text and is not set.
abbrev pub claimed_key : String → String → Option Uuid → List String
claimed_key key raw id = if is_some id || str_eq raw "" then [] else key ∷ []

module _ ⦃sv : Services⦄ where
  pub world-tenant_exists :
      (id : Uuid) (w : World sv)
      → (tenant_exists id w).1
        ≡ record w { tenants = (sv.tenants.get (λ t. t.id == id) w.tenants).1 }
  unfolding tenant_exists
  world-tenant_exists id w = elim (Result-cases (sv.tenants.get (λ t. t.id == id) w.tenants).0) [
    | inl (found, given) ↦ ground (arith, given)
    | inr (x, failed) ↦ ground (arith, failed)
  ]

  pub world-agent_exists :
      (id : Uuid) (w : World sv)
      → (agent_exists id w).1
        ≡ record w { agents = (sv.agents.get (λ r. (r.id == id) && is_live r) w.agents).1 }
  unfolding agent_exists
  world-agent_exists id w =
      elim (Result-cases (sv.agents.get (λ r. (r.id == id) && is_live r) w.agents).0) [
        | inl (found, given) ↦ ground (arith, given)
        | inr (x, failed) ↦ ground (arith, failed)
      ]

  resolve_audit_reference_frame :
      {X : Type 0} (f : World sv → X) (exists : Uuid → Exec (World sv) Bool) (raw : String)
      (w : World sv)
      → ((id : Uuid) → f (exists id w).1 ≡ f w)
      → f (resolve_audit_reference exists raw w).1 ≡ f w
  unfolding resolve_audit_reference resolve_parsed
  resolve_audit_reference_frame f exists raw w same = elim (Bool-cases (str_eq raw "")) [
    | inl empty ↦ ground (arith, empty)
    | inr text ↦ elim (Option-cases (sv.uuids.parse raw)) [
      | inl bad ↦ ground (arith, text, bad)
      | inr (id, good) ↦ elim (Result-cases (exists id w).0) [
        | inr (x, failed) ↦ ground (arith, text, good, failed, same id)
        | inl (false, unknown) ↦ ground (arith, text, good, unknown, same id)
        | inl (true, there) ↦ ground (arith, text, good, there, same id)
      ]
    ]
  ]

  -- A reference that is set is known; it is claimed where it is not set and has a text.
  resolve_audit_reference-OnSome :
      (exists : Uuid → Exec (World sv) Bool) (Known : Uuid → Type 0) (key raw : String)
      (w : World sv)
      → ((id : Uuid) → (exists id w).0 ≡ ok true → Known id)
      → (r : Reference) × ((resolve_audit_reference exists raw w).0 ≡ ok r)
        × OnSome Known r.id
        × (map (λ kv. kv.0) (claim_of key r) ≡ claimed_key key raw r.id)
  unfolding resolve_audit_reference resolve_parsed
  resolve_audit_reference-OnSome exists Known key raw w known = elim (Bool-cases (str_eq raw "")) [
    | inl empty ↦
        (record { id = none; claimed = none }, ground (arith, empty), tt, ground (arith, empty))
    | inr text ↦ elim (Option-cases (sv.uuids.parse raw)) [
      | inl bad ↦ (unresolved raw, ground (arith, text, bad), tt, ground (arith, text))
      | inr (id, good) ↦ elim (Result-cases (exists id w).0) [
        | inr (x, failed) ↦ (
          unresolved (sv.uuids.text id),
          ground (arith, text, good, failed),
          tt,
          ground (arith, text),
        )
        | inl (false, unknown) ↦ (
          unresolved (sv.uuids.text id),
          ground (arith, text, good, unknown),
          tt,
          ground (arith, text),
        )
        | inl (true, there) ↦ (
          record { id = some id; claimed = none },
          ground (arith, text, good, there),
          known id there,
          refl,
        )
      ]
    ]
  ]

  -- What an entry says of the request, in the world `w` in which it was answered.
  pub record IsTrue (w : World sv) (rq : Handled) (e : AuditLog) : Type 0 where
    pub tenant_known : OnSome (HasTenant w) e.tenant_id
    pub agent_known : OnSome (HasAgent w) e.agent_id
    pub keys :
        map (λ kv. kv.0) e.metadata
        ≡ "route" ∷ "status" ∷ claimed_key "claimedTenantID" rq.tenant_id e.tenant_id
          ++ claimed_key "claimedAgentID" rq.agent_id e.agent_id
    pub action : e.action ≡ audit_action rq.method (route_path rq)
    pub status : e.status_code ≡ rq.status

  -- With a database, and for a request of a method that is audited: AuditLog reports no error,
  -- whatever the database does, and adds at most one entry. The tenant and the agent that the entry
  -- refers to exist; its metadata has the name of a claim for each of the two exactly where the
  -- request names one and the entry does not refer to it; its action is that of the request's method
  -- and path, and its status the answer's.
  pub audit_log-IsTrue :
      (id : Uuid) (now : Time) (rq : Handled) (w : World sv)
      → is_audit_method rq.method ≡ true
      → ((audit_log true id now rq w).0 ≡ ok tt)
        × ((e : AuditLog) × IsTrue w rq e
            × ((sv.audit_logs.rows ((audit_log true id now rq w).1).audit_logs
                  ≡ e ∷ sv.audit_logs.rows w.audit_logs)
                ⊎ (sv.audit_logs.rows ((audit_log true id now rq w).1).audit_logs
                    ≡ sv.audit_logs.rows w.audit_logs)))
  unfolding audit_log store_entry create_audit_log resolve_audit_tenant_id resolve_audit_agent_id
      entry_of
  audit_log-IsTrue id now rq w audited =
      let (tenant, tenant_given, tenant_known, tenant_claim) =
        resolve_audit_reference-OnSome tenant_exists (HasTenant w) "claimedTenantID" rq.tenant_id w
          (λ id there. tenant_found id w there) in
      let v : World sv = (resolve_audit_tenant_id rq.tenant_id w).1 in
      let same_agents : v.agents ≡ w.agents =
        resolve_audit_reference_frame (λ x. x.agents) tenant_exists rq.tenant_id w
          (λ i. ap (λ x. x.agents) (world-tenant_exists i w)) in
      let (agent, agent_given, agent_known, agent_claim) =
        resolve_audit_reference-OnSome agent_exists (HasAgent w) "claimedAgentID" rq.agent_id v
          (λ id there.
            let (r, place, hit) = agent_found id v there in
            (r, subst (λ t. In r (sv.agents.rows t)) same_agents place, hit)) in
      let u : World sv = (resolve_audit_agent_id rq.agent_id v).1 in
      let e : AuditLog = entry_of id now rq tenant agent in
      let run : audit_log true id now rq w
          ≡ (ok tt, record u { audit_logs = (sv.audit_logs.insert e u.audit_logs).1 }) =
        ground (arith, audited, tenant_given, agent_given) in
      let kept : u.audit_logs ≡ w.audit_logs =
        resolve_audit_reference_frame (λ x. x.audit_logs) agent_exists rq.agent_id v
          (λ i. ap (λ x. x.audit_logs) (world-agent_exists i v))
        ∙ resolve_audit_reference_frame (λ x. x.audit_logs) tenant_exists rq.tenant_id w
            (λ i. ap (λ x. x.audit_logs) (world-tenant_exists i w)) in
      let true_entry : IsTrue w rq e = record {
        tenant_known = tenant_known;
        agent_known = agent_known;
        keys =
            ap (λ ks. "route" ∷ "status" ∷ ks)
              (map-append _ (claim_of "claimedTenantID" tenant) (claim_of "claimedAgentID" agent)
                ∙ ap (λ ks. ks ++ map (λ kv. kv.0) (claim_of "claimedAgentID" agent)) tenant_claim
                ∙ ap (λ ks. claimed_key "claimedTenantID" rq.tenant_id tenant.id ++ ks)
                    agent_claim);
        action = refl;
        status = refl;
      } in
      (
        ap (λ r. r.0) run,
        (
          e,
          true_entry,
          elim (sv.audit_logs.insert_atomic e u.audit_logs) [
            | inl lost ↦ inr (
                ap (λ r. sv.audit_logs.rows (r.1).audit_logs) run
                ∙ lost
                ∙ ap sv.audit_logs.rows kept)
            | inr (stored, _) ↦ inl (
                ap (λ r. sv.audit_logs.rows (r.1).audit_logs) run
                ∙ stored
                ∙ ap (λ t. e ∷ sv.audit_logs.rows t) kept)
          ],
        ),
      )
