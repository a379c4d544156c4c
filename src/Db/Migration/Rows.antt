-- ===== src/Db/Migration/Rows.antt =====
-- The rows behind OpenAndMigrate: before the packages are stored they are as they were.
use smmail.Prelude.{◌≡◌, refl, ◌∙◌, ◌⊎◌, inl, inr, Bytes, List, [], ◌∷◌, Option, none, some}
use smmail.Models.Database.{Database}
use smmail.Runtime.{Env, World, Error, Result, ok, err}
use smmail.Db.{seed_packages}
use smmail.Db.Schema.{Column, Schema}
use smmail.Db.Migration.{
  Sqlite, File, Setup, and_then, ◌>>◌, answered, Statement, stmts, effect, exec_schema, perform,
  migrate, on_database, alter_users, add_columns, open_and_migrate, unless,
}

record LeavesRows (m : Setup) : Type 0 where
  at : (f : File) → (m f).1.world.db ≡ f.world.db

and_then-rows :
    (next : Setup) (r : Result (Unit {0})) (f : File)
    → LeavesRows next
    → (and_then next r f).1.world.db ≡ f.world.db
and_then-rows next (ok done) f h = h.at f
and_then-rows next (err e) f h = refl

LeavesRows-then : (m next : Setup) → LeavesRows m → LeavesRows next → LeavesRows (m >> next)
unfolding ◌>>◌
LeavesRows-then m next h k = record { at = λ f. and_then-rows next (m f).0 (m f).1 k ∙ h.at f }

LeavesRows-unless : (e : Option Error) → LeavesRows (unless e)
LeavesRows-unless none = record { at = λ f. refl }
LeavesRows-unless (some x) = record { at = λ f. refl }

answered-rows :
    (f : File) (r : Result Schema) (o : Option Bytes) → (answered f r o).1.world.db ≡ f.world.db
answered-rows f (ok s) none = refl
answered-rows f (err e) none = refl
answered-rows f r (some m) = refl

module _ (env : Env) where
  migrate-LeavesRows : (sts : List Statement) → LeavesRows (migrate env sts)
  unfolding migrate perform exec_schema
  migrate-LeavesRows [] = record { at = λ f. refl }
  migrate-LeavesRows (st ∷ rest) = record {
    at = λ f.
        (LeavesRows-then (perform env st) (migrate env rest)
            (record {
              at = λ g. answered-rows g (ok (effect st g.schema)) (env.fault g.world.ticks);
            })
            (migrate-LeavesRows rest)).at
          f;
  }

  module _ (sqlite : Sqlite) where
    alter_users-LeavesRows :
        (text : Bytes) (c : Column) → LeavesRows (alter_users env sqlite text c)
    unfolding alter_users exec_schema
    alter_users-LeavesRows text c = record { at = λ f. answered-rows f _ (env.fault f.world.ticks) }

    add_columns-LeavesRows : LeavesRows (add_columns env sqlite)
    unfolding add_columns
    add_columns-LeavesRows = search (LeavesRows-then, alter_users-LeavesRows)

    stored :
        (r : Result (Unit {0})) (db : Database) (f : File)
        → f.world.db ≡ db
        → ((and_then (on_database env (seed_packages env)) r f).1.world.db ≡ db)
          ⊎ ((w : World) × (w.db ≡ db)
              × ((and_then (on_database env (seed_packages env)) r f).1.world
                  ≡ (seed_packages env w).1))
    unfolding on_database
    stored (ok done) db f e = inr (f.world, e, refl)
    stored (err x) db f e = inl e

    pub open_and_migrate-cases :
        (path : Bytes) (f : File)
        → ((open_and_migrate env sqlite path f).1.world.db ≡ f.world.db)
          ⊎ ((w : World) × (w.db ≡ f.world.db)
              × ((open_and_migrate env sqlite path f).1.world ≡ (seed_packages env w).1))
    unfolding open_and_migrate ◌>>◌
    open_and_migrate-cases path f =
        let m =
          unless (sqlite.open_file path)
          >> unless sqlite.ping
          >> migrate env stmts
          >> add_columns env sqlite in
        let kept : LeavesRows m =
          search (LeavesRows-then, LeavesRows-unless, migrate-LeavesRows, add_columns-LeavesRows) in
        stored (m f).0 f.world.db (m f).1 (kept.at f)
