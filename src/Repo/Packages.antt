-- ===== src/Repo/Packages.antt =====
-- internal/repo/package_repo.go.
pub mod Flags
pub mod Default
pub mod Tests
use smmail.Prelude.{Bool, true, false, Bytes, codes, eqb, List, find, any, if◌then◌else◌}
use smmail.Models.{PackagePlan}
use smmail.Models.Database.{insert_row, skip_id, update_rows, delete_rows}
use smmail.Runtime.{Env, M, message, exec, query, query_row, fail, ◌>>=◌, ◌>>◌}

abbrev pub is_named : Bytes → PackagePlan → Bool
is_named name p = eqb p.name name

module _ (env : Env) where
  unfoldable pub list : M (List PackagePlan)
  list = query env λ now db. db.package_plans.rows

  -- A new plan is no default, and an old one stays what it is.
  unfoldable pub create_or_update : PackagePlan → M (Unit {0})
  create_or_update p = exec env λ now db. record db {
    package_plans =
        if any (is_named p.name) db.package_plans.rows
        then update_rows (is_named p.name)
            (λ q. record q {
              monthly_limit = p.monthly_limit;
              limit_per_sec = p.limit_per_sec;
              limit_per_min = p.limit_per_min;
              limit_per_hour = p.limit_per_hour;
              limit_per_day = p.limit_per_day;
              throttle_ms = p.throttle_ms;
            })
            (skip_id db.package_plans)
        else insert_row (λ id. record p { id = id; is_default = false; created_at = now })
            db.package_plans;
  }

  -- Two statements, with no transaction around them.
  unfoldable pub set_default : Bytes → M (Unit {0})
  set_default name = do
    exec env (λ now db. record db {
      package_plans =
          update_rows (λ p. true) (λ p. record p { is_default = false }) db.package_plans;
    })
    exec env (λ now db. record db {
      package_plans =
          update_rows (is_named name) (λ p. record p { is_default = true }) db.package_plans;
    })

  unfoldable pub get_default : M PackagePlan
  get_default = query_row env λ now db. find (λ p. p.is_default) db.package_plans.rows

  unfoldable pub get_by_name : Bytes → M PackagePlan
  get_by_name name = query_row env λ now db. find (is_named name) db.package_plans.rows

  unfoldable pub delete : Bytes → M (Unit {0})
  delete name = do
    p ← get_by_name name
    if p.is_default
        then fail (message (codes "cannot delete default package"))
        else exec env
            (λ now db. record db { package_plans = delete_rows (is_named name) db.package_plans })
