-- ===== src/HttpApi/Accounts/Tests.antt =====
-- The admin changes the password of alice.
use smmail.Prelude.{ℕ, ◌≡◌, ◌↔◌, refl, true, Bytes, codes, pos, some}
use smmail.Runtime.{World, ok, exec}
use smmail.Repo.Users
use smmail.Service.Auth
use smmail.Service.Auth.{validate}
use smmail.Fixture.{calm, alice}
use smmail.HttpApi.Values.{parse_int64}
use smmail.HttpApi.Reply.{go, ok_done, give, call, ◌>>=◌}
use smmail.HttpApi.Accounts.{set_password}
use smmail.HttpApi.Accounts.Changed.{rehashed, validate-set_password}
use smmail.HttpApi.Tests.{site}

abbrev later : World
later = (set_password calm (codes "1") (ok (codes "new")) site).1.world

answered : (set_password calm (codes "1") (ok (codes "new")) site).0 ≡ go ok_done
unfolding set_password parse_int64 give call Auth.hash_password Users.set_password exec ◌>>=◌
answered = refl

one : parse_int64 (codes "1") ≡ some (pos 1)
unfolding parse_int64
one = refl

validate-set_password_example :
    (hash : Bytes) × (t now : ℕ) × (calm.hash_password t (codes "new") ≡ ok hash)
    × ((given : Bytes)
        → ((validate calm (codes "alice") given later).0 ≡ ok (rehashed calm hash now alice))
          ↔ (calm.same_password hash given ≡ true))
validate-set_password_example =
    validate-set_password calm (codes "1") (codes "new") (codes "alice") (pos 1) site later alice
      one refl refl refl answered refl refl
