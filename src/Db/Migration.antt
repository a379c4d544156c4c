-- ===== src/Db/Migration.antt =====
-- internal/db/db.go: OpenAndMigrate, on the file of the database. A row of a table that lacks a column
-- is read with the column's default, so that a column is added without a change of the rows.
pub mod Parts
pub mod Packages
pub mod Ready
pub mod Restart
pub mod Rows
pub mod Tests
use smmail.Prelude.{Bytes, codes, List, [], ◌∷◌, Option, none, some}
use smmail.Runtime.{Env, World, M, Error, message, Result, ok, err, tick}
use smmail.Db.{add_column_if_missing, wrapped, seed_packages}
use smmail.Db.Schema.{
  Column, TableSchema, Schema, create_table, add_column, plan_name_column, monthly_limit_column,
  rotation_on_column, allow_user_smtp_column, users, domain_throttles, mail_events, outbound_queue,
  package_plans, upstream_smtps, user_smtp_assignments,
}

-- What the driver answers: to `sql.Open` and `Ping`, and the texts of two errors, for a name.
pub record Sqlite : Type 0 where
  pub open_file : Bytes → Option Error
  pub ping : Option Error
  pub duplicate_column : Bytes → Bytes
  pub no_such_table : Bytes → Bytes

pub record File : Type 0 where
  pub schema : Schema
  pub world : World

abbrev pub Setup : Type 0
Setup = File → Result (Unit {0}) × File

-- A step, and the next one if it succeeds.
abbrev pub and_then : Setup → Result (Unit {0}) → File → Result (Unit {0}) × File
and_then next (ok done) file = next file
and_then next (err e) file = (err e, file)

infixl 5 ◌>>◌
pub ◌>>◌ : Setup → Setup → Setup
◌>>◌ m next file = let (r, file') = m file in and_then next r file'

abbrev pub commit_schema : File → Result Schema → Result (Unit {0}) × File
commit_schema file (ok s) = (ok tt, record { schema = s; world = tick file.world })
commit_schema file (err e) = (err e, record file { world = tick file.world })

abbrev pub answered : File → Result Schema → Option Bytes → Result (Unit {0}) × File
answered file r none = commit_schema file r
answered file r (some m) = (err (message m), record file { world = tick file.world })

-- `if err != nil { return … }` after a call that takes no statement.
abbrev pub unless : Option Error → Setup
unless none file = (ok tt, file)
unless (some e) file = (err e, file)

-- The elements of `stmts`.
pub data Statement : Type 0 where
  pragma : Bytes → Statement
  create : TableSchema → Statement

abbrev pub stmts : List Statement
stmts =
    pragma (codes "journal_mode = WAL")
    ∷ pragma (codes "synchronous = NORMAL")
    ∷ pragma (codes "busy_timeout = 5000")
    ∷ create users
    ∷ create domain_throttles
    ∷ create mail_events
    ∷ create outbound_queue
    ∷ create package_plans
    ∷ create upstream_smtps
    ∷ create user_smtp_assignments
    ∷ []

abbrev pub effect : Statement → Schema → Schema
effect (pragma text) s = s
effect (create t) s = create_table t s

module _ (env : Env) where
  pub exec_schema : (Schema → Result Schema) → Setup
  exec_schema f file = answered file (f file.schema) (env.fault file.world.ticks)

  pub perform : Statement → Setup
  unfolding exec_schema
  perform st file =
      let (r, file') = exec_schema (λ s. ok (effect st s)) file in
      (wrapped (codes "migration failed: ") r, file')

  -- The loop over `stmts`.
  pub migrate : List Statement → Setup
  migrate [] file = (ok tt, file)
  migrate (st ∷ rest) file = (perform st >> migrate rest) file

  pub on_database : M (Unit {0}) → Setup
  on_database m file = let (r, w) = m file.world in (r, record file { world = w })

  module _ (sqlite : Sqlite) where
    pub alter_users : Bytes → Column → Setup
    unfolding exec_schema
    alter_users text c file =
        let (r, file') =
          exec_schema (add_column sqlite.duplicate_column sqlite.no_such_table (codes "users") c)
            file in
        (wrapped text (add_column_if_missing r), file')

    pub add_columns : Setup
    add_columns =
        alter_users (codes "migration alter users.plan_name failed: ") plan_name_column
        >> alter_users (codes "migration alter users.monthly_limit failed: ") monthly_limit_column
        >> alter_users (codes "migration alter users.rotation_on failed: ") rotation_on_column
        >> alter_users (codes "migration alter users.allow_user_smtp failed: ")
            allow_user_smtp_column

    pub open_and_migrate : Bytes → Setup
    open_and_migrate path =
        unless (sqlite.open_file path)
        >> unless sqlite.ping
        >> migrate stmts
        >> add_columns
        >> on_database (seed_packages env)
