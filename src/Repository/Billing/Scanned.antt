-- ===== src/Repository/Billing/Scanned.antt =====
-- What a `SELECT *` of billing gives, by whether its columns fit the record.
use agentmsg.Prelude.{
  Option-cases, ◌≡◌, inl, inr, true, false, Option, String, List, is_some, str_eq, In, any, arith,
}
use agentmsg.Exec.{ok, is_ok, Exec, Result-cases}
use agentmsg.Services.World.{Services, World}
use agentmsg.Repository.Billing.{scanned}

-- What sqlx documents: a column with no field of its name is an error.
abbrev pub ReportsMissing : (missing : List String → List String → Option String) → Type 0
ReportsMissing missing =
    (columns fields : List String) (c : String)
    → In c columns
    → any (str_eq c) fields ≡ false
    → is_some (missing columns fields) ≡ true

module _ ⦃sv : Services⦄ (missing : List String → List String → Option String) where
  pub scanned_unfit :
      {A : Type 0} (columns fields : List String) (c : String) (m : Exec (World sv) A)
      (w : World sv)
      → ReportsMissing missing
      → In c columns
      → any (str_eq c) fields ≡ false
      → (is_ok (scanned missing columns fields m w).0 ≡ false)
        × ((scanned missing columns fields m w).1 ≡ (m w).1)
  unfolding scanned
  scanned_unfit columns fields c m w reports held absent =
      elim (Option-cases (missing columns fields)) [
        | inl e ↦ absurd (ground (arith, reports columns fields c held absent, e))
        | inr (x, e) ↦ elim (Result-cases (m w).0) [
          | inl (a, given) ↦ ground (arith, e, given)
          | inr (y, failed) ↦ ground (arith, e, failed)
        ]
      ]

  -- What comes back is what the statement found.
  pub scanned_ok :
      {A : Type 0} (columns fields : List String) (m : Exec (World sv) A) (w : World sv) (a : A)
      → (scanned missing columns fields m w).0 ≡ ok a
      → (m w).0 ≡ ok a
  unfolding scanned
  scanned_ok columns fields m w a h = elim (Option-cases (missing columns fields)) [
    | inr (x, e) ↦ elim (Result-cases (m w).0) [
      | inl (b, given) ↦ absurd (ground (arith, e, given, h))
      | inr (y, failed) ↦ absurd (ground (arith, failed, h))
    ]
    | inl e ↦ elim (Result-cases (m w).0) [
      | inl (b, given) ↦ ground (arith, e, given, h)
      | inr (y, failed) ↦ absurd (ground (arith, failed, h))
    ]
  ]

  pub world-scanned :
      {A : Type 0} (columns fields : List String) (m : Exec (World sv) A) (w : World sv)
      → (scanned missing columns fields m w).1 ≡ (m w).1
  unfolding scanned
  world-scanned columns fields m w = elim (Result-cases (m w).0) [
    | inr (y, failed) ↦ ground (arith, failed)
    | inl (b, given) ↦ elim (Option-cases (missing columns fields)) [
      | inl e ↦ ground (arith, given, e)
      | inr (x, e) ↦ ground (arith, given, e)
    ]
  ]
