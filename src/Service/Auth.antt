-- ===== src/Service/Auth.antt =====
-- internal/service/auth.go. bcrypt is the environment's.
pub mod Valid
pub mod Tests
use smmail.Prelude.{Bytes, codes, if◌then◌else◌}
use smmail.Models.{User}
use smmail.Runtime.{Env, M, tick, no_rows, message, Result, ok, err, pure, fail, attempt, ◌>>=◌}
use smmail.Repo.Users

module _ (env : Env) where
  -- What follows the query.
  check : Bytes → Result User → M User
  check password (err no_rows) = fail (message (codes "invalid credentials"))
  check password (err (message m)) = fail (message m)
  check password (ok u) =
      if u.enabled
      then if env.same_password u.password_hash password
        then pure u
        else fail (message (codes "invalid credentials"))
      else fail (message (codes "account disabled"))

  unfoldable pub validate : Bytes → Bytes → M User
  unfolding check
  validate username password = do
    found ← attempt (Users.get_by_username env username)
    check password found

  -- bcrypt with `bcrypt.DefaultCost`.
  unfoldable pub hash_password : Bytes → M Bytes
  hash_password password w = (env.hash_password w.ticks password, tick w)
