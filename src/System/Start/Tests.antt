-- ===== src/System/Start/Tests.antt =====
-- A start on the file of an earlier version, and a round of the worker.
use smmail.Prelude.{◌≡◌, ◌≤◌, refl, ap, inr, Bytes, ℤ, pos, negsuc, [], codes, count, arith}
use smmail.Config.{load}
use smmail.Runtime.{ok}
use smmail.Fixture.{calm, database}
use smmail.Repo.Packages.Flags.{HasOneDefault}
use smmail.Db.Migration.Tests.{sqlite, old_file, ready}
use smmail.HttpApi.Reply.{Site}
use smmail.HttpApi.Sound.{IsSound, has_id}
use smmail.HttpApi.Sound.Served.{IsSecure}
use smmail.Service.Delivery.{process}
use smmail.System.{here, round}
use smmail.System.Start.{start, started, mask}
use smmail.System.Start.Sound.{start-IsSecure}

masked : mask (codes "relay@example.com") ≡ codes "re***"
unfolding mask
masked = refl

abbrev variables : Bytes → Bytes
variables key = []

abbrev first_site : Site
first_site = record {
  world = record (start calm sqlite variables old_file).1.world { rr_index = [] };
  sessions = [];
  admin_sess = [];
}

starts : (start calm sqlite variables old_file).0 ≡ ok first_site
unfolding start
starts = ap (started (start calm sqlite variables old_file).1) (ready (load variables).sqlite_path)

one_id : (id : ℤ) → count (has_id id) database.upstream_smtps.rows ≤ 1
one_id (pos n) = ground arith
one_id (negsuc n) = ground arith

database-IsSound : IsSound database
database-IsSound = record {
  positive = (refl, tt);
  servers = record { owned = (refl, (refl, tt)); given = (refl, (refl, tt)); one_id = one_id };
}

database-HasOneDefault : HasOneDefault database.package_plans.rows
database-HasOneDefault = record { one_name = λ n. omega arith; one_default = omega arith }

start-IsSecure_example :
    IsSecure (record first_site { world = (process calm first_site.world).1 })
    × HasOneDefault (process calm first_site.world).1.db.package_plans.rows
start-IsSecure_example =
    start-IsSecure calm sqlite variables old_file first_site
      (record first_site { world = (process calm first_site.world).1 }) starts database-IsSound
      (inr refl) database-HasOneDefault (round first_site here)
