-- ===== src/Db/Schema.antt =====
-- internal/db/db.go: the tables that OpenAndMigrate creates, and what SQLite does with a schema. Names
-- are compared as they are spelled, since the program spells all of them in lower case.
use smmail.Prelude.{Bool, ◌&&◌, Bytes, codes, eqb, List, [], ◌∷◌, ◌++◌, any, update, if◌then◌else◌}
use smmail.Runtime.{message, Result, ok, err}

-- A column with its type and its constraints.
pub record Column : Type 0 where
  pub name : Bytes
  pub definition : Bytes

pub record TableSchema : Type 0 where
  pub name : Bytes
  pub columns : List Column
  pub constraints : List Bytes

abbrev pub Schema : Type 0
Schema = List TableSchema

abbrev pub is_table : Bytes → TableSchema → Bool
is_table name t = eqb t.name name

abbrev pub is_column : Bytes → Column → Bool
is_column name c = eqb c.name name

abbrev pub has_table : Bytes → Schema → Bool
has_table name s = any (is_table name) s

abbrev pub has_column : Bytes → Bytes → Schema → Bool
has_column table name s = any (λ t. is_table table t && any (is_column name) t.columns) s

-- `CREATE TABLE IF NOT EXISTS`.
unfoldable pub create_table : TableSchema → Schema → Schema
create_table t s = if has_table t.name s then s else s ++ t ∷ []

abbrev pub with_column : Column → TableSchema → TableSchema
with_column c t = record t { columns = t.columns ++ c ∷ [] }

-- `ALTER TABLE … ADD COLUMN`, with SQLite's texts for a column that is there and a table that is not.
unfoldable pub add_column :
    (Bytes → Bytes) → (Bytes → Bytes) → Bytes → Column → Schema → Result Schema
add_column duplicate_column no_such_table table c s =
    if has_table table s
    then (if has_column table c.name s
        then err (message (duplicate_column c.name))
        else ok (update (is_table table) (with_column c) s))
    else err (message (no_such_table table))

abbrev column : Bytes → Bytes → Column
column name definition = record { name = name; definition = definition }

abbrev id_column : Column
id_column = column (codes "id") (codes "INTEGER PRIMARY KEY AUTOINCREMENT")

abbrev text_column : Bytes → Column
text_column name = column name (codes "TEXT NOT NULL")

abbrev integer_column : Bytes → Column
integer_column name = column name (codes "INTEGER NOT NULL")

abbrev integer_or : Bytes → Bytes → Column
integer_or name default = column name (codes "INTEGER NOT NULL DEFAULT " ++ default)

abbrev time_column : Bytes → Column
time_column name = column name (codes "DATETIME NOT NULL DEFAULT CURRENT_TIMESTAMP")

abbrev user_key : Bytes
user_key = codes "FOREIGN KEY(user_id) REFERENCES users(id)"

-- The columns that an earlier version of the table had not.
abbrev pub plan_name_column : Column
plan_name_column = column (codes "plan_name") (codes "TEXT NOT NULL DEFAULT 'starter'")

abbrev pub monthly_limit_column : Column
monthly_limit_column = integer_or (codes "monthly_limit") (codes "10000")

abbrev pub rotation_on_column : Column
rotation_on_column = integer_or (codes "rotation_on") (codes "0")

abbrev pub allow_user_smtp_column : Column
allow_user_smtp_column = integer_or (codes "allow_user_smtp") (codes "1")

abbrev pub users : TableSchema
users = record {
  name = codes "users";
  columns =
      id_column
      ∷ column (codes "username") (codes "TEXT NOT NULL UNIQUE")
      ∷ text_column (codes "password_hash")
      ∷ column (codes "display_name") (codes "TEXT")
      ∷ plan_name_column
      ∷ monthly_limit_column
      ∷ rotation_on_column
      ∷ integer_or (codes "enabled") (codes "1")
      ∷ allow_user_smtp_column
      ∷ integer_or (codes "limit_per_sec") (codes "5")
      ∷ integer_or (codes "limit_per_min") (codes "120")
      ∷ integer_or (codes "limit_per_hour") (codes "3000")
      ∷ integer_or (codes "limit_per_day") (codes "20000")
      ∷ integer_or (codes "throttle_ms") (codes "0")
      ∷ time_column (codes "created_at")
      ∷ time_column (codes "updated_at")
      ∷ [];
  constraints = [];
}

abbrev pub domain_throttles : TableSchema
domain_throttles = record {
  name = codes "domain_throttles";
  columns =
      id_column
      ∷ integer_column (codes "user_id")
      ∷ text_column (codes "domain")
      ∷ integer_or (codes "limit_per_hour") (codes "1000")
      ∷ integer_or (codes "throttle_ms") (codes "0")
      ∷ time_column (codes "created_at")
      ∷ time_column (codes "updated_at")
      ∷ [];
  constraints = codes "UNIQUE(user_id, domain)" ∷ user_key ∷ [];
}

abbrev pub mail_events : TableSchema
mail_events = record {
  name = codes "mail_events";
  columns =
      id_column
      ∷ integer_column (codes "user_id")
      ∷ text_column (codes "mail_from")
      ∷ text_column (codes "rcpt_to")
      ∷ text_column (codes "domain")
      ∷ text_column (codes "status")
      ∷ column (codes "reason") (codes "TEXT")
      ∷ time_column (codes "created_at")
      ∷ [];
  constraints = user_key ∷ [];
}

abbrev pub outbound_queue : TableSchema
outbound_queue = record {
  name = codes "outbound_queue";
  columns =
      id_column
      ∷ integer_column (codes "user_id")
      ∷ text_column (codes "mail_from")
      ∷ text_column (codes "rcpt_to")
      ∷ column (codes "data") (codes "BLOB NOT NULL")
      ∷ column (codes "status") (codes "TEXT NOT NULL DEFAULT 'pending'")
      ∷ integer_or (codes "attempts") (codes "0")
      ∷ time_column (codes "next_attempt_at")
      ∷ column (codes "last_error") (codes "TEXT")
      ∷ time_column (codes "created_at")
      ∷ time_column (codes "updated_at")
      ∷ [];
  constraints = user_key ∷ [];
}

abbrev pub package_plans : TableSchema
package_plans = record {
  name = codes "package_plans";
  columns =
      id_column
      ∷ column (codes "name") (codes "TEXT NOT NULL UNIQUE")
      ∷ integer_or (codes "monthly_limit") (codes "10000")
      ∷ integer_or (codes "limit_per_sec") (codes "5")
      ∷ integer_or (codes "limit_per_min") (codes "120")
      ∷ integer_or (codes "limit_per_hour") (codes "3000")
      ∷ integer_or (codes "limit_per_day") (codes "20000")
      ∷ integer_or (codes "throttle_ms") (codes "0")
      ∷ integer_or (codes "is_default") (codes "0")
      ∷ time_column (codes "created_at")
      ∷ [];
  constraints = [];
}

abbrev pub upstream_smtps : TableSchema
upstream_smtps = record {
  name = codes "upstream_smtps";
  columns =
      id_column
      ∷ integer_or (codes "owner_user_id") (codes "0")
      ∷ text_column (codes "name")
      ∷ text_column (codes "host")
      ∷ integer_or (codes "port") (codes "587")
      ∷ text_column (codes "username")
      ∷ text_column (codes "password")
      ∷ text_column (codes "from_email")
      ∷ integer_or (codes "enabled") (codes "1")
      ∷ time_column (codes "created_at")
      ∷ [];
  constraints = [];
}

abbrev pub user_smtp_assignments : TableSchema
user_smtp_assignments = record {
  name = codes "user_smtp_assignments";
  columns =
      id_column
      ∷ integer_column (codes "user_id")
      ∷ integer_column (codes "smtp_id")
      ∷ integer_or (codes "weight") (codes "1")
      ∷ integer_or (codes "enabled") (codes "1")
      ∷ time_column (codes "created_at")
      ∷ [];
  constraints =
      codes "UNIQUE(user_id, smtp_id)"
      ∷ user_key
      ∷ codes "FOREIGN KEY(smtp_id) REFERENCES upstream_smtps(id)"
      ∷ [];
}
