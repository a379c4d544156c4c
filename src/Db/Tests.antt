-- ===== src/Db/Tests.antt =====
-- The seeds of an empty database, and the errors of a column.
use smmail.Prelude.{◌≡◌, refl, codes, to_lower, inr, map, [], ◌∷◌, arith}
use smmail.Models.{PackagePlan}
use smmail.Runtime.{error_text, ok, err, message, exec, ◌>>=◌}
use smmail.Fixture.{calm, start}
use smmail.Repo.Packages.Flags.{HasOneDefault}
use smmail.Db.{add_column_if_missing, seed_packages, seed, insert_or_ignore, contains}
use smmail.Db.Seeds.{seed_packages-HasOneDefault}

seeded :
    map (λ (p : PackagePlan). p.name) (seed_packages calm start).1.db.package_plans.rows
    ≡ codes "starter" ∷ codes "pro" ∷ codes "enterprise" ∷ []
unfolding seed_packages seed insert_or_ignore exec ◌>>=◌
seeded = refl

known_column :
    add_column_if_missing (err (message (codes "SQL logic error: Duplicate column name: x")))
    ≡ ok tt
unfolding add_column_if_missing contains to_lower error_text
known_column = refl

empty-HasOneDefault : HasOneDefault start.db.package_plans.rows
empty-HasOneDefault = record { one_name = λ n. omega arith; one_default = omega arith }

seed_packages_example : HasOneDefault (seed_packages calm start).1.db.package_plans.rows
seed_packages_example = seed_packages-HasOneDefault calm start (inr refl) empty-HasOneDefault
