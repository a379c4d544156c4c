-- ===== src/Db/Migration/Ready.antt =====
-- What a run of OpenAndMigrate that succeeds has set up.
use smmail.Prelude.{
  ℕ, ◌≡◌, refl, ◌≢◌, inl, inr, Bool, true, false, Bytes, codes, to_lower, List, [], ◌∷◌, ◌++◌,
  Option, none, some, Bool-cases, arith,
}
use smmail.Runtime.{Env, message, error_text, ok, err, tick}
use smmail.Db.{wrapped, add_column_if_missing, contains}
use smmail.Db.Schema.{
  Column, Schema, has_table, has_column, add_column, plan_name_column, monthly_limit_column,
  rotation_on_column, allow_user_smtp_column,
}
use smmail.Db.Migration.{
  Sqlite, File, Setup, ◌>>◌, answered, Statement, pragma, create, stmts, effect, exec_schema,
  perform, migrate, alter_users, add_columns, open_and_migrate,
}
use smmail.Db.Migration.Packages.{wrapped_ok, packages, packages-SetsUp}
use smmail.Db.Migration.Parts.{
  Part, table, column_of, Has, Grows, Grows-refl, SetsUp, SetsUp-then, SetsUp-unless, Extends,
  Extends-Grows, effect-Extends, with_column-Extends,
}

-- Whether the text of an error speaks of a column that is there already.
abbrev pub speaks_of_duplicate : Bytes → Bool
speaks_of_duplicate text = contains (to_lower text) (codes "duplicate column name")

-- SQLite speaks of a column that is there already where there is one, and in no other error.
pub record IsHonest (env : Env) (sqlite : Sqlite) : Type 0 where
  pub columns : (c : Bytes) → speaks_of_duplicate (sqlite.duplicate_column c) ≡ true
  pub tables : speaks_of_duplicate (sqlite.no_such_table (codes "users")) ≡ false
  pub faults : (t : ℕ) (m : Bytes) → env.fault t ≡ some m → speaks_of_duplicate m ≡ false

-- The parts that the statements set up.
abbrev pub part_of : Statement → List Part
part_of (pragma text) = []
part_of (create t) = table t.name ∷ []

abbrev pub parts_of : List Statement → List Part
parts_of [] = []
parts_of (st ∷ rest) = part_of st ++ parts_of rest

Extends-same : (s : Schema) → Extends [] s s
Extends-same s = record { tables = λ n h. h; columns = λ n c h. h; there = λ w. tt }

statement-Extends : (st : Statement) (s : Schema) → Extends (part_of st) s (effect st s)
statement-Extends (pragma text) s = Extends-same s
statement-Extends (create t) s = effect-Extends t s

abbrev pub user_column : Column → Part
user_column c = column_of (codes "users") c.name

-- The columns that are added.
abbrev pub added : List Part
added =
    column_of (codes "users") (codes "plan_name")
    ∷ column_of (codes "users") (codes "monthly_limit")
    ∷ column_of (codes "users") (codes "rotation_on")
    ∷ column_of (codes "users") (codes "allow_user_smtp")
    ∷ []

-- The tables that the repositories use.
abbrev pub seven_tables : List Part
seven_tables =
    table (codes "users")
    ∷ table (codes "domain_throttles")
    ∷ table (codes "mail_events")
    ∷ table (codes "outbound_queue")
    ∷ table (codes "package_plans")
    ∷ table (codes "upstream_smtps")
    ∷ table (codes "user_smtp_assignments")
    ∷ []

-- What the program needs of a file.
abbrev pub required : List Part
required = (seven_tables ++ added) ++ packages

module _ (env : Env) where
  performed :
      (st : Statement) (file : File) (o : Option Bytes)
      → (answered file (ok (effect st file.schema)) o).0 ≡ ok tt
      → Grows file (answered file (ok (effect st file.schema)) o).1
        × Has (part_of st) (answered file (ok (effect st file.schema)) o).1
  performed st file none h =
      let e = statement-Extends st file.schema in
      (Extends-Grows (part_of st) file (effect st file.schema) e, e.there (tick file.world))
  performed st file (some m) h = absurd cc

  perform-SetsUp : (st : Statement) → SetsUp (part_of st) (perform env st)
  unfolding perform exec_schema
  perform-SetsUp st = record {
    at = λ file h.
        performed st file (env.fault file.world.ticks)
          (wrapped_ok (codes "migration failed: ") _ tt h);
  }

  migrate-SetsUp : (sts : List Statement) → SetsUp (parts_of sts) (migrate env sts)
  unfolding migrate
  migrate-SetsUp [] = record { at = λ file h. (Grows-refl file, tt) }
  migrate-SetsUp (st ∷ rest) = record {
    at = λ file h.
        (SetsUp-then (part_of st) (parts_of rest) (migrate env rest) (migrate-SetsUp rest)
            (perform env st) (perform-SetsUp st)).at
          file h;
  }

  module _ (sqlite : Sqlite) (honest : IsHonest env sqlite) where
    -- A statement that adds a column, for each way in which the column may be there.
    known_column :
        (text m : Bytes)
        → speaks_of_duplicate m ≡ false
        → wrapped text (add_column_if_missing (err (message m))) ≢ ok tt
    unfolding add_column_if_missing error_text
    known_column text m quiet h = ground (arith, quiet, h)

    altered :
        (text : Bytes) (c : Column) (file : File) (o : Option Bytes)
        → ((m : Bytes) → o ≡ some m → speaks_of_duplicate m ≡ false)
        → let (r, file') =
            answered file
              (add_column sqlite.duplicate_column sqlite.no_such_table
                (codes "users")
                c
                file.schema)
              o in
          wrapped text (add_column_if_missing r) ≡ ok tt
          → Grows file file' × Has (column_of (codes "users") c.name ∷ []) file'
    unfolding add_column
    altered text c file (some m) quiet h = absurd (known_column text m (quiet m refl) h)
    altered text c file none quiet h = elim (Bool-cases (has_table (codes "users") file.schema)) [
      | inl there ↦ elim (Bool-cases (has_column (codes "users") c.name file.schema)) [
        | inl old ↦
            rw (there, old)
              (Extends-Grows [] file file.schema (Extends-same file.schema), (old, tt))
        | inr new ↦
            rw (there, new)
              (let e = with_column-Extends (codes "users") c file.schema there in
                (Extends-Grows _ file _ e, e.there (tick file.world)))
      ]
      | inr missing ↦ absurd (known_column text _ honest.tables (rw missing at h))
    ]

    alter_users-SetsUp :
        (text : Bytes) (c : Column)
        → SetsUp (column_of (codes "users") c.name ∷ []) (alter_users env sqlite text c)
    unfolding alter_users exec_schema
    alter_users-SetsUp text c = record {
      at = λ file h.
          altered text c file (env.fault file.world.ticks) (honest.faults file.world.ticks) h;
    }

    next :
        (parts : List Part) (c : Column) (text : Bytes) {m : Setup}
        → SetsUp parts m
        → SetsUp (parts ++ user_column c ∷ []) (m >> alter_users env sqlite text c)
    next parts c text {m} h =
        SetsUp-then parts (user_column c ∷ []) _ (alter_users-SetsUp text c) m h

    add_columns-SetsUp : SetsUp added (add_columns env sqlite)
    unfolding add_columns
    add_columns-SetsUp =
        next
          (user_column plan_name_column
            ∷ user_column monthly_limit_column
            ∷ user_column rotation_on_column
            ∷ [])
          allow_user_smtp_column _
          (next (user_column plan_name_column ∷ user_column monthly_limit_column ∷ [])
            rotation_on_column _
            (next (user_column plan_name_column ∷ []) monthly_limit_column _
              (alter_users-SetsUp _ plan_name_column)))

    -- When OpenAndMigrate returns no error, the file has the seven tables, the four columns of users
    -- that were added to it later, and packages called starter, pro and enterprise, whatever file it
    -- was given and whichever statements failed on the way, and no table, column or package is lost,
    -- if SQLite's errors speak of a duplicate column where there is one only.
    pub open_and_migrate-SetsUp :
        (path : Bytes) (file : File)
        → (open_and_migrate env sqlite path file).0 ≡ ok tt
        → Grows file (open_and_migrate env sqlite path file).1
          × Has required (open_and_migrate env sqlite path file).1
    unfolding open_and_migrate
    open_and_migrate-SetsUp path file =
        (SetsUp-then (seven_tables ++ added) packages _ (packages-SetsUp env) _ (
            SetsUp-then seven_tables added _ add_columns-SetsUp _ (
              SetsUp-then [] seven_tables _ (migrate-SetsUp stmts) _ (
                SetsUp-then [] [] _ (SetsUp-unless sqlite.ping) _
                  (SetsUp-unless (sqlite.open_file path)))))).at
          file
