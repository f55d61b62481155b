-- ===== src/Repository/Migrations/Again.antt =====
-- Running the migrations once more.
use agentmsg.Prelude.{
  ◌≡◌, ◌⊎◌, inl, inr, refl, ap, ◌∙◌, Bool, true, String, List, [], ◌∷◌, any, All, All-take, take,
  Bool-cases, arith, str_eq_self,
}
use agentmsg.Exec.{Error, ok, err, Result-cases}
use agentmsg.Repository.Migrations.{
  Statement, is_record, Database, Files, migration_names, run_migrations,
}
use agentmsg.Repository.Migrations.Replayed.{replay_file, replay, names_of, run_migrations_refines}

module _ (files : Files) where
  -- A file that adds nothing more.
  abbrev IsSettled : List Statement → String → Type 0
  IsSettled c n = (any (is_record n) c ≡ true) ⊎ ((e : Error) × (files.read_file n ≡ err e))

  replay_file_settled :
      (n : String) (c : List Statement) → IsSettled c n → replay_file files n c ≡ c
  unfolding replay_file
  replay_file_settled n c (inl there) = rw there
  replay_file_settled n c (inr (e, unread)) = ground (arith, unread)

  replay_file-IsSettled : (n : String) (c : List Statement) → IsSettled (replay_file files n c) n
  unfolding replay_file
  replay_file-IsSettled n c = elim (Bool-cases (any (is_record n) c)) [
    | inl there ↦ inl (ground (arith, there))
    | inr fresh ↦ elim (Result-cases (files.read_file n)) [
      | inr (e, unread) ↦ inr (e, unread)
      | inl (t, text) ↦ inl (ground (arith, fresh, text, str_eq_self n))
    ]
  ]

  replay_file-keeps :
      (m n : String) (c : List Statement) → IsSettled c n → IsSettled (replay_file files m c) n
  unfolding replay_file
  replay_file-keeps m n c (inr unread) = inr unread
  replay_file-keeps m n c (inl there) = inl (ground (arith, there))

  replay-keeps :
      (ns : List String) (n : String) (c : List Statement)
      → IsSettled c n
      → IsSettled (replay files ns c) n
  unfolding replay
  replay-keeps [] n c h = h
  replay-keeps (m ∷ ns) n c h =
      replay-keeps ns n (replay_file files m c) (replay_file-keeps m n c h)

  replay-IsSettled :
      (ns : List String) (c : List Statement) → All (IsSettled (replay files ns c)) ns
  unfolding replay
  replay-IsSettled [] c = tt
  replay-IsSettled (n ∷ ns) c =
      let c₁ = replay_file files n c in
      (replay-keeps ns n c₁ (replay_file-IsSettled n c), replay-IsSettled ns c₁)

  replay_settled :
      (ns : List String) (c : List Statement) → All (IsSettled c) ns → replay files ns c ≡ c
  unfolding replay
  replay_settled [] c h = refl
  replay_settled (n ∷ ns) c h =
      ap (replay files ns) (replay_file_settled n c h.0) ∙ replay_settled ns c h.1

module _ (db : Database) (files : Files) where
  -- After a run of the migrations without an error, another run commits nothing, whether it ends
  -- in an error or not.
  pub run_migrations_again :
      (configured configured' : Bool) (s : db.Store)
      → (run_migrations db configured files s).0 ≡ ok tt
      → let s' = (run_migrations db configured files s).1 in
        db.committed (run_migrations db configured' files s').1 ≡ db.committed s'
  unfolding names_of
  run_migrations_again configured configured' s h =
      let s' : db.Store = (run_migrations db configured files s).1 in
      elim (run_migrations_refines db files configured s) [
        | inr (e, failed, _, _) ↦ absurd (ground (arith, failed, h))
        | inl (es, listed, done, all) ↦
            let ns = migration_names es in
            let settled : All (IsSettled files (db.committed s')) ns =
              rw all (replay-IsSettled files ns (db.committed s)) in
            elim (run_migrations_refines db files configured' s') [
              | inl (fs, listed', done', all') ↦
                  let same : fs ≡ es = cc in
                  all'
                  ∙ ap (λ l. replay files (migration_names l) (db.committed s')) same
                  ∙ replay_settled files ns (db.committed s') settled
              | inr (e, failed, k, some_of) ↦
                  some_of
                  ∙ ap (λ r. replay files (take k (names_of r)) (db.committed s')) listed
                  ∙ replay_settled files (take k ns) (db.committed s')
                      (All-take (IsSettled files (db.committed s')) k ns settled)
            ]
      ]
