-- ===== src/Repo/Packages/Tests.antt =====
-- Four calls on an empty table.
use smmail.Prelude.{codes, Bytes, pos, false, List, [], ◌∷◌, arith}
use smmail.Models.{PackagePlan}
use smmail.Repo.Packages.Default.{
  Call, store, choose, remove, perform_all, perform_all-HasOneDefault,
}
use smmail.Repo.Packages.Flags.{HasOneDefault}
use smmail.Fixture.{calm, start}

abbrev plan : Bytes → PackagePlan
plan name = record {
  id = pos 0;
  name = name;
  monthly_limit = pos 100;
  limit_per_sec = pos 1;
  limit_per_min = pos 2;
  limit_per_hour = pos 3;
  limit_per_day = pos 4;
  throttle_ms = pos 5;
  is_default = false;
  created_at = 0;
}

abbrev calls : List Call
calls =
    store (plan (codes "a"))
    ∷ choose (codes "a")
    ∷ store (plan (codes "b"))
    ∷ choose (codes "b")
    ∷ remove (codes "a")
    ∷ []

start-HasOneDefault : HasOneDefault start.db.package_plans.rows
start-HasOneDefault = record { one_name = λ n. omega arith; one_default = omega arith }

perform_all_example : HasOneDefault (perform_all calm calls start).db.package_plans.rows
perform_all_example = perform_all-HasOneDefault calm calls start start-HasOneDefault
