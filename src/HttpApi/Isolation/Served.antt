-- ===== src/HttpApi/Isolation/Served.antt =====
-- Who may change what, for a whole request.
use smmail.Prelude.{
  ◌≡◌, refl, Bool, true, false, not, ◌&&◌, Bytes, is_empty, leb, ℕ, codes, ℤ, eqb_ℤ, get_key,
  Option, none, some, if◌then◌else◌, arith,
}
use smmail.Config.{Config}
use smmail.Runtime.{Env}
use smmail.HttpApi.Reply.{
  Site, go, reply, H, Response, UserSession, AdminSession, failed, send, give, ◌>>=◌,
}
use smmail.HttpApi.Guards.{
  Headers, request_token, now, admin_expired, admin_auth, user_auth, live_session,
}
use smmail.HttpApi.Guards.Checked.{user_auth-same, admin_auth-same}
use smmail.HttpApi.Router.{Request, Route, UserRoute, handle, handle_user, handle_admin, serve}
use smmail.HttpApi.Sound.Served.{IsSecure, user_auth-Gives}
use smmail.HttpApi.Isolation.{SameFor}
use smmail.HttpApi.Isolation.Requests.{handle_user-Apart}

abbrev is_open_user : ℕ → Option UserSession → Bool
is_open_user t none = false
is_open_user t (some sess) = leb t sess.expires_at

abbrev is_open_admin : ℕ → Option AdminSession → Bool
is_open_admin t none = false
is_open_admin t (some sess) = leb t sess.expires_at

-- The request carries the token of a session that has not expired.
abbrev pub is_live_user : Env → Headers → Site → Bool
is_live_user env headers s =
    let token = request_token headers.x_user_token headers.authorization in
    not (is_empty token) && is_open_user (now env s) (get_key token s.sessions)

abbrev pub is_live_admin : Env → Headers → Site → Bool
is_live_admin env headers s =
    let token = request_token headers.x_admin_session headers.authorization in
    not (is_empty token) && is_open_admin (now env s) (get_key token s.admin_sess)

-- Only the routes of the two groups ask for a session.
abbrev pub is_authorized : Env → Request → Site → Bool
is_authorized env req s = elim req.route [
  | Route.admin route ↦ is_live_admin env req.headers s
  | Route.user route ↦ is_live_user env req.headers s
  | _ ↦ true
]

-- What a guard that gives a value leads to.
pub bind-go :
    {A B : Type 0} (m : H A) (f : A → H B) (s : Site) (a : A)
    → (m s).0 ≡ go a
    → (m s).1 ≡ s
    → (m >>= f) s ≡ f a s
unfolding ◌>>=◌
bind-go m f s a e h = rw (e, h) refl

bind-reply :
    {A B : Type 0} (m : H A) (f : A → H B) (s : Site) (r : Response)
    → (m s).0 ≡ reply r
    → (m s).1 ≡ s
    → (m >>= f) s ≡ (reply r, s)
unfolding ◌>>=◌
bind-reply m f s r e h = rw (e, h) refl

module _ (env : Env) where
  refused_admin :
      (b : Bool) (x y : Bytes) (o : Option AdminSession) (s : Site)
      → not b && is_open_admin (now env s) o ≡ false
      → (text : Bytes) × ((if b
            then send (failed 401 x) s
            else if admin_expired (now env s) o
            then send (failed 401 y) s
            else give (tt {0}) s).0
          ≡ reply (failed 401 text))
  unfolding send give
  refused_admin true x y o s h = (x, refl)
  refused_admin false x y none s h = (y, refl)
  refused_admin false x y (some sess) s h = (y, ground (arith, h))

  admin_auth-reply :
      (headers : Headers) (s : Site)
      → is_live_admin env headers s ≡ false
      → (text : Bytes) × ((admin_auth env headers s).0 ≡ reply (failed 401 text))
  unfolding admin_auth
  admin_auth-reply headers s h =
      refused_admin _ _ _
        (get_key (request_token headers.x_admin_session headers.authorization) s.admin_sess) s h

  refused_user :
      (b : Bool) (x : Bytes) (o : Option UserSession) (s : Site)
      → not b && is_open_user (now env s) o ≡ false
      → (text : Bytes) × ((if b then send (failed 401 x) s else live_session env o s).0
          ≡ reply (failed 401 text))
  unfolding send give live_session
  refused_user true x o s h = (x, refl)
  refused_user false x none s h = (_, refl)
  refused_user false x (some sess) s h = (codes "invalid or expired user token", ground (arith, h))

  user_auth-reply :
      (headers : Headers) (s : Site)
      → is_live_user env headers s ≡ false
      → (text : Bytes) × ((user_auth env headers s).0 ≡ reply (failed 401 text))
  unfolding user_auth
  user_auth-reply headers s h =
      refused_user _ _
        (get_key (request_token headers.x_user_token headers.authorization) s.sessions) s h

  refused_route :
      (cfg : Config) (headers : Headers) (route : Route) (s : Site)
      → is_authorized env (record { headers = headers; route = route }) s ≡ false
      → (text : Bytes) × (serve env cfg (record { headers = headers; route = route }) s
          ≡ (failed 401 text, s))
  unfolding serve handle
  refused_route cfg headers (Route.smtp_test form) s h = ground (arith, h)
  refused_route cfg headers (Route.admin_login form) s h = ground (arith, h)
  refused_route cfg headers (Route.user_login form) s h = ground (arith, h)
  refused_route cfg headers (Route.user_register form) s h = ground (arith, h)
  refused_route cfg headers (Route.admin route) s h =
      let (text, e) = admin_auth-reply headers s h in
      (
        text,
        rw
            (bind-reply (admin_auth env headers) (λ _. handle_admin env route) s (failed 401 text) e
              (admin_auth-same env headers s))
            refl,
      )
  refused_route cfg headers (Route.user route) s h =
      let (text, e) = user_auth-reply headers s h in
      (
        text,
        rw
            (bind-reply (user_auth env headers) (handle_user env route) s (failed 401 text) e
              (user_auth-same env headers s))
            refl,
      )

  -- A request for a route of the admin, or of a user, that carries no token of a session of this kind
  -- that has not expired is answered by 401, and changes nothing.
  pub serve_unauthorized :
      (cfg : Config) (req : Request) (s : Site)
      → is_authorized env req s ≡ false
      → (text : Bytes) × (serve env cfg req s ≡ (failed 401 text, s))
  unfolding serve handle
  serve_unauthorized cfg req s h = refused_route cfg req.headers req.route s h

  -- A request under the session of a user leaves every row of another user in the tables of users,
  -- events, mails, servers and assignments as it is, and all packages and domain rules.
  pub serve_user-SameFor :
      (cfg : Config) (headers : Headers) (route : UserRoute) (s : Site) (id v : ℤ)
      → IsSecure s
      → (user_auth env headers s).0 ≡ go id
      → eqb_ℤ id v ≡ false
      → SameFor v s.world.db
          (serve env cfg (record { headers = headers; route = Route.user route }) s).1.world.db
  unfolding serve handle
  serve_user-SameFor cfg headers route s id v sec e other =
      rw
        (bind-go (user_auth env headers) (handle_user env route) s id e
          (user_auth-same env headers s))
        (((handle_user-Apart env id v ((user_auth-Gives env headers).at s id sec e) other route).at
            s).kept.others
          sec.database)
