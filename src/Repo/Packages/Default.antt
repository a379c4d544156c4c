-- ===== src/Repo/Packages/Default.antt =====
-- The default among the packages.
use smmail.Prelude.{
  ℕ, refl, true, false, Bytes, List, [], ◌∷◌, any, find, Option-cases, Bool-cases, inl, inr,
}
use smmail.Models.{PackagePlan}
use smmail.Models.Database.{Database, update_rows}
use smmail.Runtime.{Env, World, M, tick, timestamp, exec, ◌>>=◌}
use smmail.Runtime.Effects.{
  Steps, IsPreorder, Steps-bind, Steps-if, Steps-fail, exec-cases, exec_ok, exec_fault,
  query_row-tick,
}
use smmail.Repo.Packages.{is_named, create_or_update, set_default, get_by_name, delete}
use smmail.Repo.Packages.Flags.{
  HasOneDefault, clear_flags-HasOneDefault, set_flags-HasOneDefault, filter-HasOneDefault,
  update-HasOneDefault, insert-HasOneDefault,
}

-- A run keeps the property.
pub record Keeps (w w' : World) : Type 0 where
  pub kept : HasOneDefault w.db.package_plans.rows → HasOneDefault w'.db.package_plans.rows

pub Keeps-order : IsPreorder Keeps
Keeps-order = record {
  same = λ w. record { kept = λ h. h };
  chain = λ u v w p q. record { kept = λ h. q.kept (p.kept h) };
}

-- A call of a method that writes.
pub data Call : Type 0 where
  store : PackagePlan → Call
  choose remove : Bytes → Call

pub perform : Env → Call → M (Unit {0})
perform env (store p) = create_or_update env p
perform env (choose name) = set_default env name
perform env (remove name) = delete env name

pub perform_all : Env → List Call → World → World
perform_all env [] w = w
perform_all env (c ∷ rest) w = perform_all env rest (perform env c w).1

module _ (env : Env) where
  pub exec-Keeps :
      (f : ℕ → Database → Database)
      → ((now : ℕ) (db : Database)
          → HasOneDefault db.package_plans.rows
          → HasOneDefault (f now db).package_plans.rows)
      → Steps Keeps (exec env f)
  exec-Keeps f h = record {
    at = λ w. elim (exec-cases env f w) [
      | inl e ↦ rw e (record { kept = λ h. h })
      | inr e ↦ rw e (record { kept = λ k. h (timestamp env w.ticks) w.db k })
    ];
  }

  pub create_or_update-Keeps : (p : PackagePlan) → Steps Keeps (create_or_update env p)
  unfolding create_or_update
  create_or_update-Keeps p = exec-Keeps _ (λ now db h.
      elim (Bool-cases (any (is_named p.name) db.package_plans.rows)) [
        | inl e ↦ rw e (
            update-HasOneDefault (is_named p.name) _ db.package_plans.rows (λ n x. refl) (λ x. refl)
              h)
        | inr e ↦ rw e (insert-HasOneDefault _ db.package_plans.rows e refl h)
      ])

  get_by_name-Keeps : (name : Bytes) → Steps Keeps (get_by_name env name)
  unfolding get_by_name
  get_by_name-Keeps name = record {
    at = λ w.
        rw (query_row-tick env (λ now db. find (is_named name) db.package_plans.rows) w)
          (record { kept = λ h. h });
  }

  pub delete-Keeps : (name : Bytes) → Steps Keeps (delete env name)
  unfolding delete
  delete-Keeps name = Steps-bind Keeps-order _ _ (get_by_name-Keeps name) (λ p.
      Steps-if p.is_default _ _ (Steps-fail Keeps-order _)
        (exec-Keeps _ (λ now db h. filter-HasOneDefault _ db.package_plans.rows h)))

  clear : ℕ → Database → Database
  clear now db = record db {
    package_plans = update_rows (λ p. true) (λ p. record p { is_default = false }) db.package_plans;
  }

  set : Bytes → ℕ → Database → Database
  set name now db = record db {
    package_plans =
        update_rows (is_named name) (λ p. record p { is_default = true }) db.package_plans;
  }

  -- The second statement, in the world that the first one leaves.
  set-Keeps :
      (name : Bytes) (w : World)
      → Keeps w
          (exec env (set name) (record (tick w) { db = clear (timestamp env w.ticks) w.db })).1
  unfolding clear set
  set-Keeps name w =
      elim (exec-cases env (set name)
        (record (tick w) { db = clear (timestamp env w.ticks) w.db })) [
          | inl e ↦
              rw e (record { kept = λ h. clear_flags-HasOneDefault w.db.package_plans.rows h })
          | inr e ↦
              rw e (record { kept = λ h. set_flags-HasOneDefault name w.db.package_plans.rows h })
        ]

  pub set_default-Keeps : (name : Bytes) → Steps Keeps (set_default env name)
  unfolding set_default clear set ◌>>=◌
  set_default-Keeps name = record {
    at = λ w. elim (Option-cases (env.fault w.ticks)) [
      | inl e ↦ rw (exec_ok env clear w e) (set-Keeps name w)
      | inr (x, e) ↦ rw (exec_fault env clear w x e) (record { kept = λ h. h })
    ];
  }

  -- Whatever sequence of calls writes the packages, and whichever statements fail, a name stands for
  -- one package at most, and one package at most is the default, if that was so before.
  pub perform_all-HasOneDefault :
      (calls : List Call) (w : World)
      → HasOneDefault w.db.package_plans.rows
      → HasOneDefault (perform_all env calls w).db.package_plans.rows
  unfolding perform_all perform
  perform_all-HasOneDefault [] w h = h
  perform_all-HasOneDefault (store p ∷ rest) w h =
      perform_all-HasOneDefault rest (create_or_update env p w).1
        (((create_or_update-Keeps p).at w).kept h)
  perform_all-HasOneDefault (choose name ∷ rest) w h =
      perform_all-HasOneDefault rest (set_default env name w).1
        (((set_default-Keeps name).at w).kept h)
  perform_all-HasOneDefault (remove name ∷ rest) w h =
      perform_all-HasOneDefault rest (delete env name w).1 (((delete-Keeps name).at w).kept h)
