-- ===== src/Repository/Migrations/Replayed.antt =====
-- What the runner leaves in the database: the files that were not there yet, whole and in order.
use agentmsg.Prelude.{
  ℕ, suc, ◌≡◌, ◌⊎◌, inl, inr, refl, sym, ap, ◌∙◌, Bool, true, false, String, List, [], ◌∷◌, any,
  filter, length, take, ltb, Bool-cases, arith, if◌then◌else◌,
}
use agentmsg.Exec.{Error, Result, ok, err, Done, Done-cases, Result-cases}
use agentmsg.Repository.Migrations.{
  Statement, script, recorded, is_record, Database, DirEntry, Files, migration_names,
  migration_applied, execute_or_rollback, apply_migration, migrate_file, migrate_files,
  migrate_locked, run_migrations,
}

-- The specification: what one file adds to what has been committed, and what several add, in turn.
unfoldable pub replay_file : Files → String → List Statement → List Statement
replay_file files n c =
    if any (is_record n) c
    then c
    else elim (files.read_file n) [ ok t ↦ recorded n ∷ script t ∷ c | err _ ↦ c ]

unfoldable pub replay : Files → List String → List Statement → List Statement
replay files [] c = c
replay files (n ∷ ns) c = replay files ns (replay_file files n c)

replay_file_there :
    (files : Files) (n : String) (c : List Statement)
    → any (is_record n) c ≡ true
    → replay_file files n c ≡ c
unfolding replay_file
replay_file_there files n c h = rw h

-- The names that a directory gives; none where it cannot be read.
unfoldable pub names_of : Result (List DirEntry) → List String
names_of (ok es) = migration_names es
names_of (err _) = []

any-filter : (p : Statement → Bool) (c : List Statement) → ltb 0 (length (filter p c)) ≡ any p c
any-filter p [] = refl
any-filter p (x ∷ c) = ground (arith, any-filter p c)

module _ (db : Database) (files : Files) where
  -- `c` is what had been committed: the whole file was added if there is no error, and all or
  -- nothing of it otherwise.
  abbrev pub Added : String → List Statement → Done × db.Store → Type 0
  Added n c r =
      ((r.0 ≡ ok tt) × (db.committed r.1 ≡ replay_file files n c))
      ⊎ ((e : Error) × (r.0 ≡ err e)
          × ((db.committed r.1 ≡ c) ⊎ (db.committed r.1 ≡ replay_file files n c)))

  executed :
      (q : Statement) (s : db.Store)
      → ((execute_or_rollback db q s ≡ (ok tt, (db.execute q s).1)) × ((db.execute q s).0 ≡ ok tt))
        ⊎ ((e : Error) × ((execute_or_rollback db q s).0 ≡ err e)
            × (db.committed (execute_or_rollback db q s).1 ≡ db.committed s))
  unfolding execute_or_rollback
  executed q s = elim (Done-cases (db.execute q s).0) [
    | inl done ↦ inl (ground (arith, done), done)
    | inr (e, failed) ↦ inr (
      e,
      ground (arith, failed),
      ground (arith, failed, db.committed-execute q s, db.committed-rollback (db.execute q s).1),
    )
  ]

  -- The transaction of a file that is not there yet.
  apply_migration-Added :
      (n t : String) (s : db.Store)
      → any (is_record n) (db.committed s) ≡ false
      → files.read_file n ≡ ok t
      → Added n (db.committed s) (apply_migration db n t s)
  unfolding apply_migration replay_file
  apply_migration-Added n t s fresh text =
      let s₁ : db.Store = (db.begin s).1 in
      let s₂ : db.Store = (db.execute (script t) s₁).1 in
      let s₃ : db.Store = (db.execute (recorded n) s₂).1 in
      let same₁ = db.committed-begin s in
      let same₂ = db.committed-execute (script t) s₁ in
      let same₃ = db.committed-execute (recorded n) s₂ in
      elim (Done-cases (db.begin s).0) [
        | inr (e, failed) ↦ inr (e, ground (arith, failed), inl (ground (arith, failed, same₁)))
        | inl begun ↦ elim (executed (script t) s₁) [
          | inr (e, failed, same) ↦
              inr
                (e, ground (arith, begun, failed), inl (ground (arith, begun, failed, same, same₁)))
          | inl (ran, done) ↦ elim (executed (recorded n) s₂) [
            | inr (e, failed, same) ↦ inr (
              e,
              ground (arith, begun, ran, failed),
              inl (ground (arith, begun, ran, failed, same, same₁, same₂)),
            )
            | inl (ran', done') ↦
                let held : db.pending s₃ ≡ recorded n ∷ script t ∷ [] = ground (
                  arith,
                  db.begin_done s begun,
                  db.execute_done (script t) s₁ done,
                  db.execute_done (recorded n) s₂ done',
                ) in
                elim (Done-cases (db.commit s₃).0) [
                  | inl over ↦ inl (
                    ground (arith, begun, ran, ran', over),
                    ground (
                      arith,
                      begun,
                      ran,
                      ran',
                      over,
                      held,
                      fresh,
                      text,
                      same₁,
                      same₂,
                      same₃,
                      db.commit_done s₃ over,
                    ),
                  )
                  | inr (e, failed) ↦ inr (
                    e,
                    ground (arith, begun, ran, ran', failed),
                    ground (
                      arith,
                      begun,
                      ran,
                      ran',
                      failed,
                      held,
                      fresh,
                      text,
                      same₁,
                      same₂,
                      same₃,
                      db.commit_atomic s₃,
                    ),
                  )
                ]
          ]
        ]
      ]

  migrate_file-Added :
      (n : String) (s : db.Store) → Added n (db.committed s) (migrate_file db files n s)
  unfolding migrate_file migration_applied
  migrate_file-Added n s =
      let c = db.committed s in
      let s₁ : db.Store = (db.count n s).1 in
      let same = db.committed-count n s in
      elim (Result-cases (db.count n s).0) [
        | inr (e, failed) ↦ inr (e, ground (arith, failed), inl (ground (arith, failed, same)))
        | inl (k, counted) ↦
            let test : ltb 0 k ≡ any (is_record n) c =
              ap (ltb 0) (db.count_done n s k counted) ∙ any-filter (is_record n) c in
            elim (Bool-cases (any (is_record n) c)) [
              | inl there ↦ inl (
                ground (arith, counted, test, there),
                ground (arith, counted, test, there, same)
                    ∙ sym (replay_file_there files n c there),
              )
              | inr fresh ↦ elim (Result-cases (files.read_file n)) [
                | inr (e, unread) ↦ inr (
                  e,
                  ground (arith, counted, test, fresh, unread),
                  inl (ground (arith, counted, test, fresh, unread, same)),
                )
                | inl (t, text) ↦
                    let run : migrate_file db files n s ≡ apply_migration db n t s₁ =
                      ground (arith, counted, test, fresh, text) in
                    rw (run, ← same)
                      (apply_migration-Added n t s₁ (ap (any (is_record n)) same ∙ fresh) text)
              ]
            ]
      ]

  -- Several files: all of them were added if there is no error, and otherwise those up to some
  -- place.
  abbrev pub AllAdded : List String → List Statement → Done × db.Store → Type 0
  AllAdded ns c r =
      ((r.0 ≡ ok tt) × (db.committed r.1 ≡ replay files ns c))
      ⊎ ((e : Error) × (r.0 ≡ err e) × (k : ℕ) × (db.committed r.1 ≡ replay files (take k ns) c))

  migrate_files-AllAdded :
      (ns : List String) (s : db.Store) → AllAdded ns (db.committed s) (migrate_files db files ns s)
  unfolding migrate_files replay
  migrate_files-AllAdded [] s = inl (refl, refl)
  migrate_files-AllAdded (n ∷ ns) s =
      let c = db.committed s in
      let s₁ : db.Store = (migrate_file db files n s).1 in
      elim (migrate_file-Added n s) [
        | inr (e, failed, inl same) ↦
            inr (e, ground (arith, failed), 0, ground (arith, failed, same))
        | inr (e, failed, inr whole) ↦
            inr (e, ground (arith, failed), 1, ground (arith, failed, whole))
        | inl (done, whole) ↦ elim (migrate_files-AllAdded ns s₁) [
          | inl (done', all) ↦ inl (ground (arith, done, done'), ground (arith, done, all, whole))
          | inr (e, failed, k, some_of) ↦
              inr (e, ground (arith, done, failed), suc k, ground (arith, done, some_of, whole))
        ]
      ]

  -- Whatever the database does, running the migrations ends in one of two ways. Without an error:
  -- the directory was read, and what has been committed is what the replay of all its files gives,
  -- in the order of their names. Or with an error: nothing else was committed than the replay of
  -- files up to some place, each of them whole.
  pub run_migrations_refines :
      (configured : Bool) (s : db.Store)
      → ((es : List DirEntry) × (files.read_dir ≡ ok es)
          × ((run_migrations db configured files s).0 ≡ ok tt)
          × (db.committed (run_migrations db configured files s).1
              ≡ replay files (migration_names es) (db.committed s)))
        ⊎ ((e : Error) × ((run_migrations db configured files s).0 ≡ err e)
            × (k : ℕ) × (db.committed (run_migrations db configured files s).1
                ≡ replay files (take k (names_of files.read_dir)) (db.committed s)))
  unfolding run_migrations migrate_locked replay names_of
  run_migrations_refines configured s =
      let s₁ : db.Store = (db.ensure_table s).1 in
      let s₂ : db.Store = (db.lock s₁).1 in
      let same : db.committed s₂ ≡ db.committed s =
        db.committed-lock s₁ ∙ db.committed-ensure_table s in
      elim (Bool-cases configured) [
        | inr off ↦ inr (Error.external "database is not configured", rw off, 0, rw off)
        | inl on ↦ elim (Done-cases (db.ensure_table s).0) [
          | inr (e, failed) ↦ inr (
            e,
            ground (arith, on, failed),
            0,
            ground (arith, on, failed, db.committed-ensure_table s),
          )
          | inl made ↦ elim (Done-cases (db.lock s₁).0) [
            | inr (e, failed) ↦
                inr (e, ground (arith, on, made, failed), 0, ground (arith, on, made, failed, same))
            | inl locked ↦ elim (Result-cases files.read_dir) [
              | inr (e, unread) ↦ inr (
                e,
                ground (arith, on, made, locked, unread),
                0,
                ground (arith, on, made, locked, unread, same, db.committed-unlock s₂),
              )
              | inl (es, listed) ↦
                  let r = migrate_files db files (migration_names es) s₂ in
                  let kept = db.committed-unlock r.1 in
                  elim (migrate_files-AllAdded (migration_names es) s₂) [
                    | inl (done, all) ↦ inl (
                      es,
                      listed,
                      ground (arith, on, made, locked, listed, done),
                      ground (arith, on, made, locked, listed, done, all, kept, same),
                    )
                    | inr (e, failed, k, some_of) ↦ inr (
                      e,
                      ground (arith, on, made, locked, listed, failed),
                      k,
                      ground (arith, on, made, locked, listed, failed, some_of, kept, same),
                    )
                  ]
            ]
          ]
        ]
      ]
