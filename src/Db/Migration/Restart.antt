-- ===== src/Db/Migration/Restart.antt =====
-- What OpenAndMigrate does with a file that has all that it sets up.
use smmail.Prelude.{
  ℕ, suc, ◌≤◌, arith, ◌≡◌, refl, ap, true, Bytes, codes, List, [], ◌∷◌, ◌++◌, Option, none, any,
}
use smmail.Models.{PackagePlan}
use smmail.Runtime.{Env, Error, error_text, Result, ok, exec, ◌>>=◌}
use smmail.Repo.Packages.{is_named}
use smmail.Db.{
  starter, pro, enterprise, insert_or_ignore, seed, seed_packages, add_column_if_missing,
}
use smmail.Db.Schema.{
  Column, Schema, has_table, has_column, create_table, add_column, plan_name_column,
  monthly_limit_column, rotation_on_column, allow_user_smtp_column,
}
use smmail.Db.Migration.{
  Sqlite, File, Setup, ◌>>◌, Statement, pragma, create, stmts, effect, exec_schema, perform,
  migrate, on_database, alter_users, add_columns, open_and_migrate, unless,
}
use smmail.Db.Migration.Parts.{Has, Has-left, Has-right}
use smmail.Db.Migration.Packages.{packages}
use smmail.Db.Migration.Ready.{IsHonest, part_of, parts_of, added, seven_tables, required}

-- The file after some calls, with the id that was given last to a package.
abbrev pub counted : ℕ → ℕ → File → File
counted n last_id file = record file {
  world = record file.world {
    ticks = n;
    db = record file.world.db {
      package_plans = record file.world.db.package_plans { last_id = last_id };
    };
  };
}

-- The step succeeds, gives no package id again, and else leaves the file as it is.
record IsIdle (file : File) (m : Setup) : Type 0 where
  at : (n i : ℕ) → (n' i' : ℕ) × (i ≤ i') × (m (counted n i file) ≡ (ok tt, counted n' i' file))

module _ (file : File) where
  IsIdle-then : (m next : Setup) → IsIdle file m → IsIdle file next → IsIdle file (m >> next)
  unfolding ◌>>◌
  IsIdle-then m next h k = record {
    at = λ n i.
        let (n', i', l, e) = h.at n i in
        let (n'', i'', l', e') = k.at n' i' in (n'', i'', omega (arith, l, l'), rw e e');
  }

module _ (env : Env) (works : (t : ℕ) → env.fault t ≡ none) (file : File) where
  exec_schema-same :
      (f : Schema → Result Schema) (n i : ℕ)
      → f file.schema ≡ ok file.schema
      → exec_schema env f (counted n i file) ≡ (ok tt, counted (suc n) i file)
  unfolding exec_schema
  exec_schema-same f n i e = rw (works n, e) refl

  effect-same : (st : Statement) → Has (part_of st) file → effect st file.schema ≡ file.schema
  unfolding create_table
  effect-same (pragma text) h = refl
  effect-same (create t) (h, _) = rw h refl

  perform-IsIdle : (st : Statement) → Has (part_of st) file → IsIdle file (perform env st)
  unfolding perform
  perform-IsIdle st h = record {
    at = λ n i. (
      suc n,
      i,
      omega arith,
      rw (exec_schema-same (λ s. ok (effect st s)) n i (ap ok (effect-same st h))) refl,
    );
  }

  migrate-IsIdle : (sts : List Statement) → Has (parts_of sts) file → IsIdle file (migrate env sts)
  unfolding migrate
  migrate-IsIdle [] h = record { at = λ n i. (n, i, omega arith, refl) }
  migrate-IsIdle (st ∷ rest) h = record {
    at = λ n i.
        (IsIdle-then file (perform env st) (migrate env rest)
            (perform-IsIdle st (Has-left (part_of st) (parts_of rest) file h))
            (migrate-IsIdle rest (Has-right (part_of st) (parts_of rest) file h))).at
          n i;
  }

  unless-IsIdle : (e : Option Error) → e ≡ none → IsIdle file (unless e)
  unless-IsIdle e h = rw h (record { at = λ n i. (n, i, omega arith, refl) })

  insert-same :
      (p : PackagePlan) (n i : ℕ)
      → any (is_named p.name) file.world.db.package_plans.rows ≡ true
      → insert_or_ignore env p (counted n i file).world
        ≡ (ok tt, (counted (suc n) (suc i) file).world)
  unfolding insert_or_ignore exec
  insert-same p n i h = rw (works n, h) refl

  seeded :
      (text : Bytes) (p : PackagePlan) (n i : ℕ)
      → any (is_named p.name) file.world.db.package_plans.rows ≡ true
      → seed env text p (counted n i file).world ≡ (ok tt, (counted (suc n) (suc i) file).world)
  unfolding seed
  seeded text p n i h = rw (insert-same p n i h) refl

  packages-IsIdle : Has packages file → IsIdle file (on_database env (seed_packages env))
  unfolding on_database seed_packages ◌>>=◌
  packages-IsIdle (h, (k, (l, _))) = record {
    at = λ n i. (
      suc (suc (suc n)),
      suc (suc (suc i)),
      omega arith,
      rw
          (
            seeded _ starter n i h,
            seeded _ pro (suc n) (suc i) k,
            seeded _ enterprise (suc (suc n)) (suc (suc i)) l,
          )
          refl,
    );
  }

  module _ (sqlite : Sqlite) (honest : IsHonest env sqlite) where
    alter_users-IsIdle :
        (text : Bytes) (c : Column)
        → has_table (codes "users") file.schema ≡ true
        → has_column (codes "users") c.name file.schema ≡ true
        → IsIdle file (alter_users env sqlite text c)
    unfolding alter_users exec_schema add_column add_column_if_missing error_text
    alter_users-IsIdle text c h k = record {
      at = λ n i. (suc n, i, omega arith, rw (works n, h, k, honest.columns c.name) refl);
    }

    add_columns-IsIdle :
        has_table (codes "users") file.schema ≡ true
        → Has added file
        → IsIdle file (add_columns env sqlite)
    unfolding add_columns
    add_columns-IsIdle h (a, (b, (c, (d, _)))) =
        IsIdle-then file _ _
          (IsIdle-then file _ _
            (IsIdle-then file _ _ (alter_users-IsIdle _ plan_name_column h a)
              (alter_users-IsIdle _ monthly_limit_column h b))
            (alter_users-IsIdle _ rotation_on_column h c))
          (alter_users-IsIdle _ allow_user_smtp_column h d)

    -- A file that has the seven tables, the four columns and the three packages is opened with no
    -- error, and all its tables, columns and rows stay as they are, and so do the ids that the tables
    -- have given, but for those of the packages, which may only grow, where SQLite opens it and no
    -- statement fails.
    pub open_and_migrate-same :
        (path : Bytes)
        → sqlite.open_file path ≡ none
        → sqlite.ping ≡ none
        → Has required file
        → (n i : ℕ) × (file.world.db.package_plans.last_id ≤ i)
          × (open_and_migrate env sqlite path file ≡ (ok tt, counted n i file))
    unfolding open_and_migrate
    open_and_migrate-same path opened answers h =
        let tables_added = Has-left (seven_tables ++ added) packages file h in
        let tables = Has-left (seven_tables) added file tables_added in
        (IsIdle-then file _ _
            (IsIdle-then file _ _
              (IsIdle-then file _ _
                (IsIdle-then file _ _ (unless-IsIdle _ opened) (unless-IsIdle _ answers))
                (migrate-IsIdle stmts tables))
              (add_columns-IsIdle tables.0 (Has-right (seven_tables) added file tables_added)))
            (packages-IsIdle (Has-right (seven_tables ++ added) packages file h))).at
          file.world.ticks file.world.db.package_plans.last_id
