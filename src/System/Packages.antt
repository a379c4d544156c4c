-- ===== src/System/Packages.antt =====
-- The default among the packages, whatever the program runs.
use smmail.Prelude.{ℕ, ◌≡◌, refl}
use smmail.Config.{Config}
use smmail.Models.Database.{Database}
use smmail.Runtime.{Env, M, exec}
use smmail.Runtime.Effects.{Steps}
use smmail.Runtime.Kept.{IsDatabaseOrder, On, On-exec}
use smmail.Repo.Queue
use smmail.Repo.Packages.Default.{Keeps, create_or_update-Keeps, set_default-Keeps, delete-Keeps}
use smmail.Repo.Packages.Flags.{HasOneDefault}
use smmail.HttpApi.Reply.{Site}
use smmail.System.{Reaches}
use smmail.System.Kept.{Reaches-kept}
use smmail.System.Writes.{CoreWrites, all_writes}

record Keeper (db db' : Database) : Type 0 where
  kept : HasOneDefault db.package_plans.rows → HasOneDefault db'.package_plans.rows

Keeper-order : IsDatabaseOrder Keeper
Keeper-order = record {
  same = λ db. record { kept = λ h. h };
  chain = λ a b c p q. record { kept = λ h. q.kept (p.kept h) };
}

of_worlds : {A : Type 0} {m : M A} → Steps Keeps m → Steps (On Keeper) m
of_worlds h = record { at = λ w. record { kept = record { kept = λ k. (h.at w).kept k } } }

elsewhere : (db db' : Database) → db'.package_plans ≡ db.package_plans → Keeper db db'
elsewhere db db' e = record { kept = λ h. rw e h }

module _ (env : Env) where
  other :
      (f : ℕ → Database → Database)
      → ((now : ℕ) (db : Database) → (f now db).package_plans ≡ db.package_plans)
      → Steps (On Keeper) (exec env f)
  other f e = On-exec Keeper-order env f (λ now db. elsewhere db (f now db) (e now db))

  Keeper-writes : CoreWrites Keeper env
  unfolding Queue.mark_sent Queue.mark_retry Queue.mark_failed Queue.defer Queue.enqueue
  Keeper-writes = record {
    free = λ db db' e k. elsewhere db db' e;
    store_package = λ p. of_worlds (create_or_update-Keeps env p);
    set_default = λ name. of_worlds (set_default-Keeps env name);
    delete_package = λ name. of_worlds (delete-Keeps env name);
    mark_sent = λ id. other _ (λ now db. refl);
    mark_retry = λ id e. other _ (λ now db. refl);
    mark_failed = λ id e. other _ (λ now db. refl);
    defer = λ id e wait. other _ (λ now db. refl);
    enqueue = λ item. other _ (λ now db. refl);
    dropped = λ p db. elsewhere db _ refl;
  }

  -- Whatever requests, sessions and rounds of the worker the program runs, with any failures, a name
  -- stands for one package at most, and one package at most is the default, if that was so when it
  -- started.
  pub Reaches-HasOneDefault :
      (cfg : Config) (s t : Site)
      → Reaches env cfg s t
      → HasOneDefault s.world.db.package_plans.rows
      → HasOneDefault t.world.db.package_plans.rows
  Reaches-HasOneDefault cfg s t r h =
      (Reaches-kept Keeper-order env (all_writes Keeper-order env Keeper-writes) cfg s t r).kept h
