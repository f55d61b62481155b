-- ===== src/Middleware/Audit/Referenced.antt =====
-- What a reference of an audit entry stands for.
use agentmsg.Prelude.{
  ◌≡◌, ◌≢◌, ◌⊎◌, refl, inl, inr, Bool, true, false, none, some, String, str_eq, Bool-cases,
  Option-cases, arith,
}
use agentmsg.Exec.{ok, Exec, Result-cases}
use agentmsg.Model.Scalars.{Uuid}
use agentmsg.Services.World.{Services, World}
use agentmsg.Repository.Identities.{tenant_exists, agent_exists}
use agentmsg.Middleware.Authenticate.Granted.{HasTenant, HasAgent, tenant_found, agent_found}
use agentmsg.Middleware.Audit.{
  Reference, unresolved, resolve_parsed, resolve_audit_reference, resolve_audit_tenant_id,
  resolve_audit_agent_id,
}

module _ ⦃sv : Services⦄ where
  -- The reference that was parsed from the text, and exists; or what was claimed, as text, since
  -- the text is no identifier or the database did not confirm that it exists; or nothing, for the
  -- empty text.
  abbrev pub IsSettled :
      (Uuid → Exec (World sv) Bool) → (Uuid → Type 0) → String → World sv → Reference → Type 0
  IsSettled exists Known raw w r =
      ((id : Uuid) × (r ≡ record { id = some id; claimed = none })
        × (sv.uuids.parse raw ≡ some id)
        × Known id)
      ⊎ ((id : Uuid) × (r ≡ unresolved (sv.uuids.text id))
          × (sv.uuids.parse raw ≡ some id)
          × ((exists id w).0 ≢ ok true))
      ⊎ ((r ≡ unresolved raw) × (sv.uuids.parse raw ≡ none))
      ⊎ ((r ≡ record { id = none; claimed = none }) × (str_eq raw "" ≡ true))

  resolve_audit_reference-IsSettled :
      (exists : Uuid → Exec (World sv) Bool) (Known : Uuid → Type 0) (raw : String) (w : World sv)
      → ((id : Uuid) → (exists id w).0 ≡ ok true → Known id)
      → (r : Reference) × ((resolve_audit_reference exists raw w).0 ≡ ok r)
        × IsSettled exists Known raw w r
  unfolding resolve_audit_reference resolve_parsed
  resolve_audit_reference-IsSettled exists Known raw w known = elim (Bool-cases (str_eq raw "")) [
    | inl empty ↦
        (record { id = none; claimed = none }, ground (arith, empty), inr (inr (inr (refl, empty))))
    | inr text ↦ elim (Option-cases (sv.uuids.parse raw)) [
      | inl bad ↦ (unresolved raw, ground (arith, text, bad), inr (inr (inl (refl, bad))))
      | inr (id, good) ↦ elim (Result-cases (exists id w).0) [
        | inr (x, failed) ↦ (
          unresolved (sv.uuids.text id),
          ground (arith, text, good, failed),
          inr (inl (id, refl, good, λ hit. ground (arith, hit, failed))),
        )
        | inl (false, unknown) ↦ (
          unresolved (sv.uuids.text id),
          ground (arith, text, good, unknown),
          inr (inl (id, refl, good, λ hit. ground (arith, hit, unknown))),
        )
        | inl (true, there) ↦ (
          record { id = some id; claimed = none },
          ground (arith, text, good, there),
          inl (id, refl, good, known id there),
        )
      ]
    ]
  ]

  -- For any texts of a tenant and of an agent both references are resolved without an error,
  -- whatever the database does: a reference that is set exists, and any other text that is not
  -- empty is kept as a claim.
  pub audit_references-IsSettled :
      (tenant agent : String) (w : World sv)
      → ((r : Reference) × ((resolve_audit_tenant_id tenant w).0 ≡ ok r)
          × IsSettled tenant_exists (HasTenant w) tenant w r)
        × ((r : Reference) × ((resolve_audit_agent_id agent w).0 ≡ ok r)
            × IsSettled agent_exists (HasAgent w) agent w r)
  unfolding resolve_audit_tenant_id resolve_audit_agent_id
  audit_references-IsSettled tenant agent w = (
    resolve_audit_reference-IsSettled tenant_exists (HasTenant w) tenant w
        (λ id there. tenant_found id w there),
    resolve_audit_reference-IsSettled agent_exists (HasAgent w) agent w
        (λ id there. agent_found id w there),
  )
