-- ===== src/Repo/Users/Tests.antt =====
-- The only user of the small database goes.
use smmail.Prelude.{pos}
use smmail.Repo.Users.{delete_hard}
use smmail.Repo.Users.Deleted.{IsDeletion, delete_hard-IsDeletion}
use smmail.Fixture.{calm, start}

delete_hard_example : IsDeletion (pos 1) start (delete_hard calm (pos 1) start)
delete_hard_example = delete_hard-IsDeletion calm (pos 1) start
