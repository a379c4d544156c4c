-- ===== src/Db/Migration/Tests.antt =====
-- OpenAndMigrate on a new file, on one that an earlier version has made, and a second time.
use smmail.Prelude.{ℕ, ◌≤◌, ◌≡◌, refl, Bytes, codes, to_lower, [], ◌∷◌, ◌++◌, none, filter}
use smmail.Runtime.{ok, exec, ◌>>=◌}
use smmail.Db.{seed_packages, seed, insert_or_ignore, add_column_if_missing, contains}
use smmail.Db.Schema.{TableSchema, users, is_column, create_table, add_column}
use smmail.Db.Migration.{
  Sqlite, File, ◌>>◌, exec_schema, perform, migrate, on_database, alter_users, add_columns,
  open_and_migrate,
}
use smmail.Db.Migration.Parts.{Has, Grows}
use smmail.Db.Migration.Ready.{IsHonest, required, open_and_migrate-SetsUp}
use smmail.Db.Migration.Restart.{counted, open_and_migrate-same}
use smmail.Fixture.{calm, start}

abbrev pub sqlite : Sqlite
sqlite = record {
  open_file = λ path. none;
  ping = none;
  duplicate_column = λ c. codes "SQL logic error: duplicate column name: " ++ c;
  no_such_table = λ t. codes "SQL logic error: no such table: " ++ t;
}

calm-IsHonest : IsHonest calm sqlite
unfolding contains to_lower
calm-IsHonest = record { columns = λ c. refl; tables = refl; faults = λ t m e. absurd (cc) }

-- The table as it was before its columns grew.
abbrev pub old_users : TableSchema
old_users = record users { columns = filter (is_column (codes "username")) users.columns }

abbrev pub old_file : File
old_file = record { schema = old_users ∷ []; world = start }

pub ready : (path : Bytes) → (open_and_migrate calm sqlite path old_file).0 ≡ ok tt
unfolding open_and_migrate ◌>>◌ migrate perform exec_schema create_table add_columns alter_users
    add_column add_column_if_missing on_database seed_packages seed insert_or_ignore exec ◌>>=◌
ready path = refl

abbrev new_file : File
new_file = (open_and_migrate calm sqlite (codes "./smtp.db") old_file).1

open_and_migrate-SetsUp_example : Grows old_file new_file × Has required new_file
open_and_migrate-SetsUp_example =
    open_and_migrate-SetsUp calm sqlite calm-IsHonest (codes "./smtp.db") old_file
      (ready (codes "./smtp.db"))

open_and_migrate-same_example :
    (n i : ℕ) × (new_file.world.db.package_plans.last_id ≤ i)
    × (open_and_migrate calm sqlite (codes "./smtp.db") new_file ≡ (ok tt, counted n i new_file))
open_and_migrate-same_example =
    open_and_migrate-same calm (λ t. refl) new_file sqlite calm-IsHonest (codes "./smtp.db") refl
      refl open_and_migrate-SetsUp_example.1
