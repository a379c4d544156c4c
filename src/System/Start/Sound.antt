-- ===== src/System/Start/Sound.antt =====
-- The program from its start on.
use smmail.Prelude.{◌≡◌, ◌⊎◌, inl, inr, sym, subst, true, Bytes, any, count}
use smmail.Config.{load}
use smmail.Models.Database.{Database}
use smmail.Runtime.{Env, World, Result, ok, err}
use smmail.Runtime.Effects.{Steps}
use smmail.Runtime.Kept.{On}
use smmail.Repo.Packages.{is_named}
use smmail.Repo.Packages.Flags.{HasOneDefault, is_default_plan}
use smmail.Db.{starter, seed_packages}
use smmail.Db.Seeds.{seed_packages-On, seed_packages-HasOneDefault}
use smmail.Db.Migration.{Sqlite, File, open_and_migrate}
use smmail.Db.Migration.Rows.{open_and_migrate-cases}
use smmail.HttpApi.Reply.{Site}
use smmail.HttpApi.Sound.{IsSound}
use smmail.HttpApi.Sound.Writes.{Sounder, Sounder-order}
use smmail.HttpApi.Sound.Served.{IsSecure}
use smmail.System.{Reaches, Reaches-IsSecure}
use smmail.System.Packages.{Reaches-HasOneDefault}
use smmail.System.Start.{start, started}

-- A package called starter can become the default, or is there already.
abbrev pub HasRoom : Database → Type 0
HasRoom db =
    any (is_named starter.name) db.package_plans.rows ≡ true
    ⊎ (count is_default_plan db.package_plans.rows ≡ 0)

module _ (env : Env) where
  packages-Sounder : Steps (On Sounder) (seed_packages env)
  packages-Sounder =
      seed_packages-On env Sounder-order
        (λ db t. record { sound = λ h. record { positive = h.positive; servers = h.servers } })

  module _ (sqlite : Sqlite) (path : Bytes) (file : File) where
    abbrev opened : File
    opened = (open_and_migrate env sqlite path file).1

    opened-IsSound : IsSound file.world.db → IsSound opened.world.db
    opened-IsSound h = elim (open_and_migrate-cases env sqlite path file) [
      | inl e ↦ subst IsSound (sym e) h
      | inr (w, e, seeded) ↦
          subst (λ (x : World). IsSound x.db) (sym seeded)
            ((packages-Sounder.at w).kept.sound (subst IsSound (sym e) h))
    ]

    opened-HasOneDefault :
        HasRoom file.world.db
        → HasOneDefault file.world.db.package_plans.rows
        → HasOneDefault opened.world.db.package_plans.rows
    opened-HasOneDefault room h = elim (open_and_migrate-cases env sqlite path file) [
      | inl e ↦ subst (λ (db : Database). HasOneDefault db.package_plans.rows) (sym e) h
      | inr (w, e, seeded) ↦
          subst (λ (x : World). HasOneDefault x.db.package_plans.rows) (sym seeded)
            (seed_packages-HasOneDefault env w (subst HasRoom (sym e) room)
              (subst (λ (db : Database). HasOneDefault db.package_plans.rows) (sym e) h))
    ]

  -- No session is open at the start.
  started-IsSecure :
      (r : Result (Unit {0})) (file : File) (s : Site)
      → started file r ≡ ok s
      → IsSound file.world.db
      → HasOneDefault file.world.db.package_plans.rows
      → IsSecure s × HasOneDefault s.world.db.package_plans.rows
  started-IsSecure (ok done) file s e h k =
      subst (λ (r : Result Site). Safe r) e (record { database = h; users = tt }, k)
    where
      Safe : Result Site → Type 0
      Safe (ok t) = IsSecure t × HasOneDefault t.world.db.package_plans.rows
      Safe (err x) = Unit
  started-IsSecure (err x) file s e h k = absurd cc

  -- If the program starts, then at each site that it comes to, whatever requests, sessions and rounds
  -- it runs and whichever statements fail, an assignment names a server of the system or of its user,
  -- the ids of the servers differ and those of the users are positive, a session has a positive user
  -- id, a name stands for one package at most, and one package at most is the default; if the rows of
  -- the file were so, and either a package was called starter or none was the default.
  pub start-IsSecure :
      (sqlite : Sqlite) (variables : Bytes → Bytes) (file : File) (s t : Site)
      → (start env sqlite variables file).0 ≡ ok s
      → IsSound file.world.db
      → HasRoom file.world.db
      → HasOneDefault file.world.db.package_plans.rows
      → Reaches env (load variables) s t
      → IsSecure t × HasOneDefault t.world.db.package_plans.rows
  unfolding start
  start-IsSecure sqlite variables file s t e h room k r =
      let path = (load variables).sqlite_path in
      let (secure, one) =
        started-IsSecure (open_and_migrate env sqlite path file).0
          (open_and_migrate env sqlite path file).1 s e (opened-IsSound sqlite path file h)
          (opened-HasOneDefault sqlite path file room k) in
      (
        Reaches-IsSecure env (load variables) s t r secure,
        Reaches-HasOneDefault env (load variables) s t r one,
      )
