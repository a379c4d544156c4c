-- ===== src/Db/Migration/Packages.antt =====
-- The packages that OpenAndMigrate has stored when it succeeds.
use smmail.Prelude.{
  ℕ, ◌≡◌, refl, sym, subst, inl, inr, true, Bytes, codes, List, [], ◌∷◌, ◌++◌, any, if◌then◌else◌,
  Bool-cases, eqb_refl,
}
use mathlib.Core.Path.{fun_ext}
use smmail.Models.{PackagePlan}
use smmail.Models.Database.{Database, insert_row, skip_id}
use smmail.Runtime.{Env, World, M, Result, ok, err, timestamp, continue, ◌>>=◌}
use smmail.Runtime.Effects.{exec-eq_ok}
use smmail.Repo.Packages.{is_named}
use smmail.Db.{starter, pro, enterprise, insert_or_ignore, seed, seed_packages, wrapped}
use smmail.Db.Migration.{File, ◌>>◌, on_database, and_then}
use smmail.Db.Migration.Parts.{
  Part, table, column_of, package_named, has, Grows, SetsUp, SetsUp-then, any-append_last,
  any-append_left,
}

pub wrapped_ok :
    {A : Type 0} (text : Bytes) (r : Result A) (a : A) → wrapped text r ≡ ok a → r ≡ ok a
wrapped_ok text (ok x) a h = h
wrapped_ok text (err e) a h = absurd cc

abbrev pub packages : List Part
packages =
    package_named (codes "starter")
    ∷ package_named (codes "pro")
    ∷ package_named (codes "enterprise")
    ∷ []

module _ (env : Env) where
  -- The insertion of a package.
  database-Grows :
      (file : File) (w : World)
      → ((n : Bytes)
          → any (is_named n) file.world.db.package_plans.rows ≡ true
          → any (is_named n) w.db.package_plans.rows ≡ true)
      → Grows file (record file { world = w })
  database-Grows file w h = record { kept = λ x k. kept_part x k }
    where
      kept_part : (x : Part) → has x file ≡ true → has x (record file { world = w }) ≡ true
      kept_part (table n) k = k
      kept_part (column_of n c) k = k
      kept_part (package_named n) k = h n k

  with_package : PackagePlan → ℕ → Database → Database
  with_package p now db = record db {
    package_plans =
        if any (is_named p.name) db.package_plans.rows
        then skip_id db.package_plans
        else insert_row (λ id. record p { id = id; created_at = now }) db.package_plans;
  }

  with_package-named :
      (p : PackagePlan) (now : ℕ) (db : Database)
      → any (is_named p.name) (with_package p now db).package_plans.rows ≡ true
  unfolding with_package
  with_package-named p now db = elim (Bool-cases (any (is_named p.name) db.package_plans.rows)) [
    | inl e ↦ rw (e, e) refl
    | inr e ↦ rw e (any-append_last (is_named p.name) db.package_plans.rows _ (eqb_refl p.name))
  ]

  with_package-kept :
      (p : PackagePlan) (now : ℕ) (db : Database) (n : Bytes)
      → any (is_named n) db.package_plans.rows ≡ true
      → any (is_named n) (with_package p now db).package_plans.rows ≡ true
  unfolding with_package
  with_package-kept p now db n h = elim (Bool-cases (any (is_named p.name) db.package_plans.rows)) [
    | inl e ↦ rw e h
    | inr e ↦ rw e (any-append_left (is_named n) db.package_plans.rows _ h)
  ]

  seed-SetsUp :
      (text : Bytes) (p : PackagePlan)
      → SetsUp (package_named p.name ∷ []) (on_database env (seed env text p))
  unfolding on_database seed insert_or_ignore with_package
  seed-SetsUp text p = record {
    at = λ file h.
        let w = file.world in
        let now = timestamp env w.ticks in
        let done = exec-eq_ok env (with_package p) w (wrapped_ok text _ tt h) in
        (
          database-Grows file _ (λ n k. rw done (with_package-kept p now w.db n k)),
          (rw done (with_package-named p now w.db), tt),
        );
  }

  joined :
      (n : M (Unit {0})) (file : File) (r : Result (Unit {0})) (w : World)
      → (let (r', w') = continue (λ (u : Unit {0}). n) r w in (r', record file { world = w' }))
        ≡ and_then (on_database env n) r (record file { world = w })
  unfolding on_database
  joined n file (ok u) w = refl
  joined n file (err e) w = refl

  on_database-then :
      (m n : M (Unit {0})) (file : File)
      → on_database env (m >>= λ u. n) file ≡ (on_database env m >> on_database env n) file
  unfolding on_database ◌>>=◌ ◌>>◌
  on_database-then m n file = joined n file (m file.world).0 (m file.world).1

  database-SetsUp :
      (parts more : List Part) (m n : M (Unit {0}))
      → SetsUp parts (on_database env m)
      → SetsUp more (on_database env n)
      → SetsUp (parts ++ more) (on_database env (m >>= λ u. n))
  database-SetsUp parts more m n h k =
      subst (SetsUp (parts ++ more)) (sym (fun_ext (on_database-then m n)))
        (SetsUp-then parts more (on_database env n) k (on_database env m) h)

  pub packages-SetsUp : SetsUp packages (on_database env (seed_packages env))
  unfolding seed_packages
  packages-SetsUp =
      database-SetsUp (package_named starter.name ∷ [])
        (package_named pro.name ∷ package_named enterprise.name ∷ []) _ _ (seed-SetsUp _ starter)
        (database-SetsUp (package_named pro.name ∷ []) (package_named enterprise.name ∷ []) _ _
          (seed-SetsUp _ pro) (seed-SetsUp _ enterprise))
