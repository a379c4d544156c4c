-- ===== src/HttpApi/Guards.antt =====
-- Sessions: `adminAuth`, `userAuth`, `adminLogin`, `userLogin` and `randomToken`.
pub mod Checked
pub mod Opened
use smmail.Prelude.{
  ℕ, ◌+◌, ◌*◌, ◌/◌, Bool, not, ◌||◌, ltb, Bytes, codes, eqb, is_empty, trim_space, to_lower, drop,
  ℤ, List, Option, none, some, get_key, set_key, if◌then◌else◌, [],
}
use smmail.Config.{Config}
use smmail.Models.{User}
use smmail.Runtime.{Env, World, M, Result, ok, err, tick, nanoseconds}
use smmail.Service.Auth.{validate}
use smmail.HttpApi.Values.{has_prefix, encode_to_string}
use smmail.HttpApi.Forms.{Login}
use smmail.HttpApi.Reply.{
  Site, H, go, Response, Body, admin_token, user_token, AdminSession, UserSession, ok_with, failed,
  always, send, give, call, bind_json, ◌>>=◌, ◌>>◌,
}

-- The headers that the guards read; one that is absent is empty.
pub record Headers : Type 0 where
  pub x_admin_session : Bytes
  pub x_user_token : Bytes
  pub authorization : Bytes

-- The token of a request: the header, or else the bearer of `Authorization`.
unfoldable pub request_token : Bytes → Bytes → Bytes
request_token header authz =
    if is_empty header
    then if has_prefix (to_lower authz) (codes "bearer ") then trim_space (drop 7 authz) else []
    else header

-- `time.Now()`, between two ticks.
abbrev pub now : Env → Site → ℕ
now env s = env.clock s.world.ticks

-- `!ok || time.Now().After(sess.ExpiresAt)` for a session of the map.
abbrev pub admin_expired : ℕ → Option AdminSession → Bool
admin_expired t none = Bool.true
admin_expired t (some sess) = ltb sess.expires_at t

-- 24 hours.
abbrev pub session_time : ℕ
session_time = 86400 * nanoseconds

module _ (env : Env) where
  unfoldable pub admin_auth : Headers → H (Unit {0})
  unfolding request_token
  admin_auth headers s =
      let token = request_token headers.x_admin_session headers.authorization in
      if is_empty token
      then send (failed 401 (codes "missing admin session")) s
      else if admin_expired (now env s) (get_key token s.admin_sess)
      then send (failed 401 (codes "invalid or expired admin session")) s
      else give tt s

  -- The session that the guard has found.
  unfoldable pub live_session : Option UserSession → H ℤ
  live_session none s = send (failed 401 (codes "invalid or expired user token")) s
  live_session (some sess) s =
      if ltb sess.expires_at (now env s)
      then send (failed 401 (codes "invalid or expired user token")) s
      else give sess.user_id s

  -- The result is what `c.GetInt64("user_id")` gives to the handler.
  unfoldable pub user_auth : Headers → H ℤ
  unfolding request_token live_session
  user_auth headers s =
      let token = request_token headers.x_user_token headers.authorization in
      if is_empty token
      then send (failed 401 (codes "missing user token")) s
      else live_session (get_key token s.sessions) s

  unfoldable pub random_token : ℕ → M Bytes
  random_token size w = (
    elim (env.random w.ticks size) [ ok buf ↦ ok (encode_to_string buf) | err e ↦ err e ],
    tick w,
  )

  -- `h.adminSess[token] = adminSession{ExpiresAt: exp}` and the answer, where the format RFC3339
  -- has whole seconds.
  unfoldable pub open_admin : Bytes → H Response
  open_admin token s =
      let exp = now env s + session_time in
      give (ok_with (admin_token token (exp / nanoseconds)))
        (record s { admin_sess = set_key token (record { expires_at = exp }) s.admin_sess })

  unfoldable pub open_user : Bytes → User → H Response
  open_user token u s =
      let exp = now env s + session_time in
      give (ok_with (user_token token (exp / nanoseconds) u.id)) (record s {
        sessions = set_key token (record { user_id = u.id; expires_at = exp }) s.sessions;
      })

  unfoldable pub admin_login : Config → Result Login → H Response
  unfolding open_admin
  admin_login cfg form = do
    req ← bind_json form
    if not (eqb (trim_space req.username) cfg.admin_username)
          || not (eqb req.password cfg.admin_password)
        then send (failed 401 (codes "invalid credentials"))
        else (do
          token ← call (always 500 (codes "token generation failed")) (random_token 32)
          open_admin token)

  unfoldable pub user_login : Result Login → H Response
  unfolding open_user
  user_login form = do
    req ← bind_json form
    u ← call (always 401 (codes "invalid credentials")) (validate env req.username req.password)
    token ← call (always 500 (codes "token generation failed")) (random_token 32)
    open_user token u
