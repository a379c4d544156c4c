-- ===== src/Db/Seeds.antt =====
-- The default among the packages after the program has started.
use smmail.Prelude.{
  ◌≡◌, ◌⊎◌, refl, true, false, Bytes, codes, if◌then◌else◌, any, count, Bool-cases, inl, inr, arith,
}
use smmail.Models.{PackagePlan}
use smmail.Models.Database.{Table, Database, insert_row, skip_id}
use smmail.Runtime.Kept.{IsDatabaseOrder, On, On-exec, On-bind}
use smmail.Runtime.{Env, World, M, Result, ok, err, continue, ◌>>=◌}
use smmail.Runtime.Effects.{Steps, exec-cases, Steps-bind}
use smmail.Repo.Packages.{is_named}
use smmail.Repo.Packages.Default.{Keeps, Keeps-order, exec-Keeps}
use smmail.Repo.Packages.Flags.{
  HasOneDefault, is_default_plan, insert-HasOneDefault, insert-HasOneDefault_room,
}
use smmail.Db.{starter, pro, enterprise, insert_or_ignore, seed, seed_packages}

then-HasOneDefault :
    {A B : Type 0} (f : A → M B) (r : Result A) (w : World)
    → ((a : A) → Steps Keeps (f a))
    → HasOneDefault w.db.package_plans.rows
    → HasOneDefault (continue f r w).1.db.package_plans.rows
then-HasOneDefault f (ok a) w k h = ((k a).at w).kept h
then-HasOneDefault f (err e) w k h = h

module _ (env : Env) where
  insert_or_ignore-Keeps :
      (p : PackagePlan) → p.is_default ≡ false → Steps Keeps (insert_or_ignore env p)
  unfolding insert_or_ignore
  insert_or_ignore-Keeps p off = exec-Keeps env _ (λ now db h.
      elim (Bool-cases (any (is_named p.name) db.package_plans.rows)) [
        | inl e ↦ rw e h
        | inr e ↦ rw e (insert-HasOneDefault _ db.package_plans.rows e off h)
      ])

  seed-Keeps :
      (text : Bytes) (p : PackagePlan) → p.is_default ≡ false → Steps Keeps (seed env text p)
  unfolding seed
  seed-Keeps text p off = record { at = λ w. (insert_or_ignore-Keeps p off).at w }

  module _ {D : Database → Database → Type 0} (order : IsDatabaseOrder D)
      (stores : (db : Database) (t : Table PackagePlan)
        → D db (record db { package_plans = t })) where
    seed-On : (text : Bytes) (p : PackagePlan) → Steps (On D) (seed env text p)
    unfolding seed insert_or_ignore
    seed-On text p = record { at = λ w. (On-exec order env _ (λ now db. stores db _)).at w }

    -- A relation that looks at no package is kept.
    pub seed_packages-On : Steps (On D) (seed_packages env)
    unfolding seed_packages
    seed_packages-On =
        On-bind order _ _ (seed-On _ starter)
          (λ _. On-bind order _ _ (seed-On _ pro) (λ _. seed-On _ enterprise))

  -- The starter package, which is a default.
  starter-HasOneDefault :
      (text : Bytes) (w : World)
      → any (is_named starter.name) w.db.package_plans.rows ≡ true
        ⊎ (count is_default_plan w.db.package_plans.rows ≡ 0)
      → HasOneDefault w.db.package_plans.rows
      → HasOneDefault (seed env text starter w).1.db.package_plans.rows
  unfolding seed insert_or_ignore
  starter-HasOneDefault text w room h =
      elim (exec-cases env
        (λ now db. record db {
          package_plans =
              if any (is_named starter.name) db.package_plans.rows
              then skip_id db.package_plans
              else insert_row (λ id. record starter { id = id; created_at = now }) db.package_plans;
        })
        w) [
          | inl e ↦ rw e h
          | inr e ↦ rw e (elim (Bool-cases (any (is_named starter.name) w.db.package_plans.rows)) [
            | inl k ↦ rw k h
            | inr k ↦ rw k (
                insert-HasOneDefault_room _ w.db.package_plans.rows k
                  (elim room [
                    | inl there ↦ ground (arith, k, there)
                    | inr none ↦ omega (arith, none)
                  ])
                  h)
          ])
        ]

  -- When the program starts, whichever statements fail, at most one package is the default and a name
  -- stands for at most one package, if that was so before, and either a package was called starter or
  -- none was the default.
  pub seed_packages-HasOneDefault :
      (w : World)
      → any (is_named starter.name) w.db.package_plans.rows ≡ true
        ⊎ (count is_default_plan w.db.package_plans.rows ≡ 0)
      → HasOneDefault w.db.package_plans.rows
      → HasOneDefault (seed_packages env w).1.db.package_plans.rows
  unfolding seed_packages ◌>>=◌
  seed_packages-HasOneDefault w room h =
      then-HasOneDefault _ (seed env (codes "seed package starter failed: ") starter w).0
        (seed env (codes "seed package starter failed: ") starter w).1
        (λ x.
          Steps-bind Keeps-order _ _ (seed-Keeps _ pro refl) (λ y. seed-Keeps _ enterprise refl))
        (starter-HasOneDefault _ w room h)
