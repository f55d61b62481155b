-- ===== src/Repository/Migrations.antt =====
-- The migration runner (internal/repository/migration_runner.go). What holds the advisory lock runs
-- alone.
pub mod Again
pub mod Replayed
use Prim.Native.Char.{code}
use Prim.Native.String.{◌++◌ as str_append}
use agentmsg.Prelude.{
  ℕ, ◌≡◌, ◌⊎◌, Bool, true, false, not, String, List, [], ◌∷◌, ◌++◌, map, filter, length, ltb, ◌==◌,
  str_eq, if◌then◌else◌,
}
use agentmsg.Exec.{Error, Result, ok, err, Exec, Done, pure, reject_if, ignore, ◌>>=◌, ◌>>◌}

-- What a transaction executes: the text of a file, or the insert of a file's name into
-- `schema_migrations`.
pub data Statement : Type 0 where
  script : String → Statement
  recorded : String → Statement

abbrev pub is_record : String → Statement → Bool
is_record name (script _) = false
is_record name (recorded n) = str_eq n name

-- PostgreSQL through sqlx. `committed` is what has been committed and `pending` what the open
-- transaction holds, latest first. A commit that reports an error took place as a whole or not at
-- all.
pub record Database : Type 1 where
  pub Store : Type 0
  pub committed : Store → List Statement
  pub pending : Store → List Statement
  pub ensure_table : Exec Store (Unit {0})
  pub lock : Exec Store (Unit {0})
  pub unlock : Exec Store (Unit {0})
  -- `SELECT COUNT(1) FROM schema_migrations WHERE filename = $1`
  pub count : String → Exec Store ℕ
  pub begin : Exec Store (Unit {0})
  pub execute : Statement → Exec Store (Unit {0})
  pub rollback : Exec Store (Unit {0})
  pub commit : Exec Store (Unit {0})
  pub committed-ensure_table : (s : Store) → committed (ensure_table s).1 ≡ committed s
  pub committed-lock : (s : Store) → committed (lock s).1 ≡ committed s
  pub committed-unlock : (s : Store) → committed (unlock s).1 ≡ committed s
  pub committed-count : (n : String) (s : Store) → committed (count n s).1 ≡ committed s
  pub count_done :
      (n : String) (s : Store) (k : ℕ)
      → (count n s).0 ≡ ok k
      → k ≡ length (filter (is_record n) (committed s))
  pub committed-begin : (s : Store) → committed (begin s).1 ≡ committed s
  pub begin_done : (s : Store) → (begin s).0 ≡ ok tt → pending (begin s).1 ≡ []
  pub committed-execute : (q : Statement) (s : Store) → committed (execute q s).1 ≡ committed s
  pub execute_done :
      (q : Statement) (s : Store)
      → (execute q s).0 ≡ ok tt
      → pending (execute q s).1 ≡ q ∷ pending s
  pub committed-rollback : (s : Store) → committed (rollback s).1 ≡ committed s
  pub commit_done :
      (s : Store) → (commit s).0 ≡ ok tt → committed (commit s).1 ≡ pending s ++ committed s
  pub commit_atomic :
      (s : Store)
      → (committed (commit s).1 ≡ committed s) ⊎ (committed (commit s).1 ≡ pending s ++ committed s)

pub record DirEntry : Type 0 where
  pub name : String
  pub is_dir : Bool

-- `embeddedMigrations`. `read_file` takes the name within the directory.
pub record Files : Type 0 where
  pub read_dir : Result (List DirEntry)
  pub read_file : String → Result String

-- `a <= b` on texts, by their characters.
pub at_most : String → String → Bool
at_most String.[] t = true
at_most (String.◌∷◌ c s) String.[] = false
at_most (String.◌∷◌ c s) (String.◌∷◌ d t) =
    let rest = at_most s t in
    if ltb (code c) (code d) then true else if code c == code d then rest else false

pub place : String → List String → List String
place n [] = n ∷ []
place n (m ∷ ms) = let rest = place n ms in if at_most n m then n ∷ m ∷ ms else m ∷ rest

-- `sort.Strings`
unfoldable pub sort_strings : List String → List String
unfolding place at_most
sort_strings [] = []
sort_strings (n ∷ ns) = place n (sort_strings ns)

-- The names of the files, sorted.
unfoldable pub migration_names : List DirEntry → List String
migration_names es = sort_strings (map (λ e. e.name) (filter (λ e. not e.is_dir) es))

abbrev pub give : {S A : Type 0} → Result A → Exec S A
give r s = (r, s)

module _ (db : Database) where
  unfoldable pub migration_applied : String → Exec db.Store Bool
  migration_applied n = db.count n >>= λ k. pure (ltb 0 k)

  -- `if _, err := tx.ExecContext(…); err != nil { _ = tx.Rollback(); return err }`
  unfoldable pub execute_or_rollback : Statement → Exec db.Store (Unit {0})
  execute_or_rollback q s =
      let (r, s') = db.execute q s in
      elim r [ ok _ ↦ (ok tt, s') | err e ↦ (err e, (db.rollback s').1) ]

  unfoldable pub apply_migration : String → String → Exec db.Store (Unit {0})
  apply_migration n content = do
    db.begin
    execute_or_rollback (script content)
    execute_or_rollback (recorded n)
    db.commit

  -- The body of the loop.
  unfoldable pub migrate_file : Files → String → Exec db.Store (Unit {0})
  migrate_file files n = do
    applied ← migration_applied n
    if applied then pure tt else (give (files.read_file n) >>= apply_migration n)

  unfoldable pub migrate_files : Files → List String → Exec db.Store (Unit {0})
  migrate_files files [] = pure tt
  migrate_files files (n ∷ ns) = migrate_file files n >> migrate_files files ns

  -- What runs between taking the lock and giving it back.
  unfoldable pub migrate_locked : Files → Exec db.Store (Unit {0})
  migrate_locked files = give files.read_dir >>= λ es. migrate_files files (migration_names es)

  -- `defer`
  abbrev and_unlock : Exec db.Store (Unit {0}) → Exec db.Store (Unit {0})
  and_unlock m s = let (r, s') = m s in (r, (db.unlock s').1)

  -- `configured` is `db != nil && db.db != nil`.
  unfoldable pub run_migrations : Bool → Files → Exec db.Store (Unit {0})
  run_migrations configured files = do
    reject_if (not configured) (Error.external "database is not configured")
    db.ensure_table
    db.lock
    and_unlock (migrate_locked files)
