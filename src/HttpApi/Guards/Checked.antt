-- ===== src/HttpApi/Guards/Checked.antt =====
-- What the two guards of the routes let through.
use smmail.Prelude.{
  ◌≡◌, refl, Bool, true, false, is_empty, ltb, ℤ, get_key, Option, none, some, Bool-cases, inl, inr,
  if◌then◌else◌, arith,
}
use smmail.Runtime.{Env}
use smmail.HttpApi.Reply.{Site, go, H, Response, UserSession, give, send}
use smmail.HttpApi.Guards.{
  Headers, request_token, now, admin_expired, admin_auth, live_session, user_auth,
}

module _ (env : Env) where
  chosen-same :
      {A : Type 0} (b : Bool) (r : Response) (a : A) (s : Site)
      → ((if b then send r s else give a s).1) ≡ s
  unfolding send give
  chosen-same true r a s = refl
  chosen-same false r a s = refl

  live_session-same : (o : Option UserSession) (s : Site) → (live_session env o s).1 ≡ s
  unfolding live_session send
  live_session-same none s = refl
  live_session-same (some sess) s = chosen-same (ltb sess.expires_at (now env s)) _ sess.user_id s

  -- The guards change nothing.
  pub user_auth-same : (headers : Headers) (s : Site) → (user_auth env headers s).1 ≡ s
  unfolding user_auth send
  user_auth-same headers s =
      elim (Bool-cases (is_empty (request_token headers.x_user_token headers.authorization))) [
        | inl e ↦ rw e refl
        | inr e ↦ rw e (
            live_session-same
              (get_key (request_token headers.x_user_token headers.authorization) s.sessions) s)
      ]

  pub admin_auth-same : (headers : Headers) (s : Site) → (admin_auth env headers s).1 ≡ s
  unfolding admin_auth send
  admin_auth-same headers s =
      elim (Bool-cases (is_empty (request_token headers.x_admin_session headers.authorization))) [
        | inl e ↦ rw e refl
        | inr e ↦ rw e (
            chosen-same
              (admin_expired (now env s) (
                get_key (request_token headers.x_admin_session headers.authorization) s.admin_sess))
              _ tt s)
      ]

  passed-go :
      {A : Type 0} (b : Bool) (r : Response) (m : H A) (s : Site) (a : A)
      → (if b then send r s else m s).0 ≡ go a
      → (b ≡ false) × ((m s).0 ≡ go a)
  unfolding send
  passed-go true r m s a h = ground (arith, h)
  passed-go false r m s a h = (refl, h)

  live_session-go :
      (o : Option UserSession) (s : Site) (id : ℤ)
      → (live_session env o s).0 ≡ go id
      → (sess : UserSession) × (o ≡ some sess)
        × (sess.user_id ≡ id)
        × (ltb sess.expires_at (now env s) ≡ false)
  unfolding live_session send give
  live_session-go none s id h = ground (arith, h)
  live_session-go (some sess) s id h = (sess, refl, ground (arith, h), ground (arith, h))

  -- A user is let through only by a session of that user that has not expired.
  pub user_auth-go :
      (headers : Headers) (s : Site) (id : ℤ)
      → (user_auth env headers s).0 ≡ go id
      → (sess : UserSession) × (get_key
            (request_token headers.x_user_token headers.authorization)
            s.sessions
          ≡ some sess)
        × (sess.user_id ≡ id)
        × (ltb sess.expires_at (now env s) ≡ false)
  unfolding user_auth
  user_auth-go headers s id h =
      live_session-go
        (get_key (request_token headers.x_user_token headers.authorization) s.sessions) s id
        (passed-go _ _
          (live_session env
            (get_key (request_token headers.x_user_token headers.authorization) s.sessions))
          s id h).1
