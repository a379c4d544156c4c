-- ===== src/Db.antt =====
-- internal/db/db.go: the packages that OpenAndMigrate stores, and how it reads the error of a column
-- that is there already.
pub mod Schema
pub mod Migration
pub mod Seeds
pub mod Tests
use smmail.Prelude.{
  ℕ, Bool, true, false, Bytes, codes, to_lower, pos, List, [], ◌∷◌, ◌++◌, any, if◌then◌else◌,
}
use smmail.Models.{PackagePlan}
use smmail.Models.Database.{Database, insert_row, skip_id}
use smmail.Runtime.{Env, M, Error, message, error_text, Result, ok, err, exec, ◌>>=◌, ◌>>◌}
use smmail.Repo.Packages.{is_named}
use smmail.HttpApi.Values.{has_prefix}

-- `strings.Contains`.
unfoldable pub contains : Bytes → Bytes → Bool
contains [] t = has_prefix [] t
contains (c ∷ s) t = if has_prefix (c ∷ s) t then true else contains s t

-- The error of `addColumnIfMissing`, from the one of its statement.
pub add_column_if_missing : Result (Unit {0}) → Result (Unit {0})
unfolding contains
add_column_if_missing (ok x) = ok tt
add_column_if_missing (err e) =
    if contains (to_lower (error_text e)) (codes "duplicate column name") then ok tt else err e

-- The three rows; the id and the time are the table's.
abbrev pub starter : PackagePlan
starter = record {
  id = pos 0;
  name = codes "starter";
  monthly_limit = pos 10000;
  limit_per_sec = pos 5;
  limit_per_min = pos 120;
  limit_per_hour = pos 3000;
  limit_per_day = pos 20000;
  throttle_ms = pos 0;
  is_default = true;
  created_at = 0;
}

abbrev pub pro : PackagePlan
pro = record {
  id = pos 0;
  name = codes "pro";
  monthly_limit = pos 100000;
  limit_per_sec = pos 20;
  limit_per_min = pos 1000;
  limit_per_hour = pos 15000;
  limit_per_day = pos 100000;
  throttle_ms = pos 0;
  is_default = false;
  created_at = 0;
}

abbrev pub enterprise : PackagePlan
enterprise = record {
  id = pos 0;
  name = codes "enterprise";
  monthly_limit = pos 1000000;
  limit_per_sec = pos 60;
  limit_per_min = pos 4000;
  limit_per_hour = pos 80000;
  limit_per_day = pos 500000;
  throttle_ms = pos 0;
  is_default = false;
  created_at = 0;
}

-- `fmt.Errorf("…: %w", err)`.
abbrev pub wrapped : {A : Type 0} → Bytes → Result A → Result A
wrapped text (ok a) = ok a
wrapped text (err e) = err (message (text ++ error_text e))

module _ (env : Env) where
  -- `INSERT OR IGNORE`: a name that is there already leaves the rows as they are.
  pub insert_or_ignore : PackagePlan → M (Unit {0})
  insert_or_ignore p = exec env λ now db. record db {
    package_plans =
        if any (is_named p.name) db.package_plans.rows
        then skip_id db.package_plans
        else insert_row (λ id. record p { id = id; created_at = now }) db.package_plans;
  }

  pub seed : Bytes → PackagePlan → M (Unit {0})
  seed text p w = let (r, w') = insert_or_ignore p w in (wrapped text r, w')

  -- The end of `OpenAndMigrate`.
  pub seed_packages : M (Unit {0})
  seed_packages = do
    seed (codes "seed package starter failed: ") starter
    seed (codes "seed package pro failed: ") pro
    seed (codes "seed package enterprise failed: ") enterprise
