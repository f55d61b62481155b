-- ===== src/Tests/Migrations.antt =====
-- The migration runner at work, over a database in memory that never fails.
use agentmsg.Prelude.{
  ◌≡◌, ◌⊎◌, inr, refl, sym, true, false, ℕ, List, [], ◌∷◌, ◌++◌, filter, length, take,
}
use agentmsg.Exec.{Error, ok, err, pure, ok_injective}
use agentmsg.Repository.Migrations.{
  Statement, script, recorded, is_record, Database, DirEntry, Files, sort_strings, migration_names,
  migration_applied, execute_or_rollback, apply_migration, migrate_file, migrate_files,
  migrate_locked, run_migrations,
}
use agentmsg.Repository.Migrations.Replayed.{replay, names_of, run_migrations_refines}
use agentmsg.Repository.Migrations.Again.{run_migrations_again}

record Cells : Type 0 where
  done : List Statement
  held : List Statement

abbrev simple : Database
simple = record {
  Store = Cells;
  committed = λ s. s.done;
  pending = λ s. s.held;
  ensure_table = pure tt;
  lock = pure tt;
  unlock = pure tt;
  count = λ n s. (ok (length (filter (is_record n) s.done)), s);
  begin = λ s. (ok tt, record s { held = [] });
  execute = λ q s. (ok tt, record s { held = q ∷ s.held });
  rollback = λ s. (ok tt, record s { held = [] });
  commit = λ s. (ok tt, record { done = s.held ++ s.done; held = [] });
  committed-ensure_table = λ s. refl;
  committed-lock = λ s. refl;
  committed-unlock = λ s. refl;
  committed-count = λ n s. refl;
  count_done = λ n s k h. sym (ok_injective h);
  committed-begin = λ s. refl;
  begin_done = λ s h. refl;
  committed-execute = λ q s. refl;
  execute_done = λ q s h. refl;
  committed-rollback = λ s. refl;
  commit_done = λ s h. refl;
  commit_atomic = λ s. inr refl;
}

abbrev files : Files
files = record {
  read_dir = ok (
      record { name = "002_billing.sql"; is_dir = false }
      ∷ record { name = "old"; is_dir = true }
      ∷ record { name = "001_initial.sql"; is_dir = false }
      ∷ []);
  read_file = λ n. ok n;
}

abbrev empty : Cells
empty = record { done = []; held = [] }

ran :
    (run_migrations simple true files empty).1.done
    ≡ recorded "002_billing.sql"
      ∷ script "002_billing.sql"
      ∷ recorded "001_initial.sql"
      ∷ script "001_initial.sql"
      ∷ []
unfolding run_migrations migrate_locked migration_names sort_strings migrate_files migrate_file
    migration_applied apply_migration execute_or_rollback
ran = refl

run_migrations_refines_example :
    ((es : List DirEntry) × (files.read_dir ≡ ok es)
      × ((run_migrations simple true files empty).0 ≡ ok tt)
      × ((run_migrations simple true files empty).1.done ≡ replay files (migration_names es) []))
    ⊎ ((e : Error) × ((run_migrations simple true files empty).0 ≡ err e)
        × (k : ℕ) × ((run_migrations simple true files empty).1.done
            ≡ replay files (take k (names_of files.read_dir)) []))
run_migrations_refines_example = run_migrations_refines simple files true empty

run_migrations_again_example :
    let s' = (run_migrations simple true files empty).1 in
    (run_migrations simple true files s').1.done ≡ s'.done
unfolding run_migrations migrate_locked migration_names sort_strings migrate_files migrate_file
    migration_applied apply_migration execute_or_rollback
run_migrations_again_example = run_migrations_again simple files true true empty refl
