-- ===== src/HttpApi/Sound/Served.antt =====
-- No request breaks the ownership of the servers.
use smmail.Prelude.{
  ◌≡◌, refl, subst, ℕ, Bool, false, if◌then◌else◌, true, eqb, Bytes, ℤ, is_positive, get_key-All,
  set_key-All, find-All, All, arith,
}
use smmail.Config.{Config}
use smmail.Models.{User}
use smmail.Runtime.{Env, Error, Result, ok, err}
use smmail.Service.Auth.{validate}
use smmail.Service.Auth.Valid.{validate-eq_ok, validate-tick}
use smmail.HttpApi.Forms.{Login, Registration, SmtpTest}
use smmail.HttpApi.Reply.{
  Site, Answer, go, reply, H, Response, UserSession, give, call, or_reply, proceed, ◌>>=◌,
}
use smmail.HttpApi.Guards.{
  Headers, user_auth, admin_auth, user_login, admin_login, open_user, open_admin, random_token,
}
use smmail.HttpApi.Guards.Checked.{user_auth-same, admin_auth-same, user_auth-go}
use smmail.HttpApi.Accounts.{user_register}
use smmail.HttpApi.Probes
use smmail.HttpApi.Router.{Request, Route, handle, serve}
use smmail.HttpApi.Effects.{
  Within-same, Runs-call, Runs-bind_json, Runs-send, Runs, runs_rules, read_rules,
}
use smmail.HttpApi.Handled.{handle_user-Runs, handle_admin-Runs}
use smmail.HttpApi.Sound.{IsSound}
use smmail.HttpApi.Sound.Writes.{Sounder, Sounder-order, create-Sounder}
use smmail.HttpApi.Sound.Requests.{Sounder-UserWrites, Sounder-AdminWrites}

-- The database is sound, and every session is one of a user.
pub record IsSecure (s : Site) : Type 0 where
  pub database : IsSound s.world.db
  pub users : All (λ (e : Bytes × UserSession). is_positive e.1.user_id ≡ true) s.sessions

record Secures {A : Type 0} (m : H A) : Type 0 where
  at : (s : Site) → IsSecure s → IsSecure (m s).1

-- What is known of a value that an action gives.
pub record Gives {A : Type 0} (Q : A → Type 0) (m : H A) : Type 0 where
  pub at : (s : Site) (a : A) → IsSecure s → (m s).0 ≡ go a → Q a

Secures-Runs : {A : Type 0} (m : H A) → Runs Sounder m → Secures m
Secures-Runs m h = record {
  at = λ s k. record {
    database = (h.at s).kept.sound k.database;
    users = rw (h.at s).sessions_same k.users;
  };
}

proceed-Secures :
    {A B : Type 0} (Q : A → Type 0) (f : A → H B) (r : Answer A) (t : Site)
    → IsSecure t
    → ((a : A) → r ≡ go a → Q a)
    → ((a : A) → Q a → Secures (f a))
    → IsSecure (proceed f r t).1
proceed-Secures Q f (go a) t h k l = (l a (k a refl)).at t h
proceed-Secures Q f (reply x) t h k l = h

Secures-bind :
    {A B : Type 0} (Q : A → Type 0) (m : H A) (f : A → H B)
    → Secures m
    → Gives Q m
    → ((a : A) → Q a → Secures (f a))
    → Secures (m >>= f)
unfolding ◌>>=◌
Secures-bind Q m f h k l = record {
  at = λ s sec. proceed-Secures Q f (m s).0 (m s).1 (h.at s sec) (λ a e. k.at s a sec e) l;
}

Secures-then :
    {A B : Type 0} (m : H A) (f : A → H B)
    → Secures m
    → ((a : A) → Secures (f a))
    → Secures (m >>= f)
Secures-then m f h l =
    Secures-bind (λ a. Unit {0}) m f h (record { at = λ s a sec e. tt }) (λ a u. l a)

Secures-if :
    {A : Type 0} (b : Bool) (m n : H A) → Secures m → Secures n → Secures (if b then m else n)
Secures-if true m n h k = h
Secures-if false m n h k = k

or_reply-go :
    {A : Type 0} (f : Error → Response) (r : Result A) (a : A) → or_reply f r ≡ go a → r ≡ ok a
or_reply-go f (ok b) a e = ground (arith, e)
or_reply-go f (err x) a e = ground (arith, e)

module _ (env : Env) where
  user_auth-Runs : (headers : Headers) → Runs Sounder (user_auth env headers)
  user_auth-Runs headers = record {
    at = λ s. rw (user_auth-same env headers s) (Within-same Sounder-order s);
  }

  admin_auth-Runs : (headers : Headers) → Runs Sounder (admin_auth env headers)
  admin_auth-Runs headers = record {
    at = λ s. rw (admin_auth-same env headers s) (Within-same Sounder-order s);
  }

  -- A session that is found belongs to a user.
  pub user_auth-Gives :
      (headers : Headers) → Gives (λ id. is_positive id ≡ true) (user_auth env headers)
  user_auth-Gives headers = record {
    at = λ s id sec e.
        let (sess, found, same, live) = user_auth-go env headers s id e in
        subst (λ (i : ℤ). is_positive i ≡ true) same
          (get_key-All (λ (u : UserSession). is_positive u.user_id ≡ true) _ s.sessions sess
            sec.users found);
  }

  -- The user that is validated is one of the table.
  validated-Gives :
      (f : Error → Response) (name password : Bytes)
      → Gives (λ (u : User). is_positive u.id ≡ true) (call f (validate env name password))
  unfolding call
  validated-Gives f name password = record {
    at = λ s u sec e.
        find-All (λ (v : User). is_positive v.id ≡ true) (λ v. eqb v.username name)
          s.world.db.users.rows u sec.database.positive
          (validate-eq_ok env name password s.world u (or_reply-go f _ u e)).0;
  }

  random-Runs : (f : Error → Response) (size : ℕ) → Runs Sounder (call f (random_token env size))
  unfolding random_token
  random-Runs f size =
      Runs-call f _ (record { at = λ w. record { kept = Sounder-order.same w.db } })

  validated-Runs :
      (f : Error → Response) (name password : Bytes)
      → Runs Sounder (call f (validate env name password))
  validated-Runs f name password = Runs-call f _ (record {
    at = λ w. rw (validate-tick env name password w) (record { kept = Sounder-order.same w.db });
  })

  open_user-Secures :
      (token : Bytes) (u : User) → is_positive u.id ≡ true → Secures (open_user env token u)
  unfolding open_user give
  open_user-Secures token u h = record {
    at = λ s sec. record {
      database = sec.database;
      users =
          set_key-All (λ (x : UserSession). is_positive x.user_id ≡ true) token _ s.sessions h
            sec.users;
    };
  }

  open_admin-Secures : (token : Bytes) → Secures (open_admin env token)
  unfolding open_admin give
  open_admin-Secures token = record {
    at = λ s sec. record { database = sec.database; users = sec.users };
  }

  user_login-Secures : (form : Result Login) → Secures (user_login env form)
  unfolding user_login
  user_login-Secures form =
      Secures-then _ _ (Secures-Runs _ (Runs-bind_json Sounder-order form)) (λ req.
        Secures-bind (λ (u : User). is_positive u.id ≡ true) _ _
          (Secures-Runs _ (validated-Runs _ req.username req.password)) (validated-Gives _ _ _)
          (λ u h.
            Secures-then _ _ (Secures-Runs _ (random-Runs _ 32))
              (λ token. open_user-Secures token u h)))

  admin_login-Secures : (cfg : Config) (form : Result Login) → Secures (admin_login env cfg form)
  unfolding admin_login
  admin_login-Secures cfg form =
      Secures-then _ _ (Secures-Runs _ (Runs-bind_json Sounder-order form)) (λ req.
        Secures-if _ _ _ (Secures-Runs _ (Runs-send Sounder-order _)) (
          Secures-then _ _ (Secures-Runs _ (random-Runs _ 32)) (λ token. open_admin-Secures token)))

  user_register-Sounder : (form : Result Registration) → Runs Sounder (user_register env form)
  unfolding user_register
  user_register-Sounder form =
      search (runs_rules, read_rules, Sounder-order, create-Sounder) depth 12

  smtp_test-Runs : (form : Result SmtpTest) → Runs Sounder (Probes.smtp_test env form)
  unfolding Probes.smtp_test
  smtp_test-Runs form = search (runs_rules, read_rules, Sounder-order) depth 12

  handle-Secures : (cfg : Config) (req : Request) → Secures (handle env cfg req)
  unfolding handle
  handle-Secures cfg req =
      elim req.route as (λ r. Secures (handle env cfg (record req { route = r }))) [
        | Route.smtp_test form ↦ Secures-Runs _ (smtp_test-Runs form)
        | Route.admin_login form ↦ admin_login-Secures cfg form
        | Route.user_login form ↦ user_login-Secures form
        | Route.user_register form ↦ Secures-Runs _ (user_register-Sounder form)
        | Route.admin r ↦
            Secures-then _ _ (Secures-Runs _ (admin_auth-Runs req.headers)) (λ _.
              Secures-Runs _ (handle_admin-Runs Sounder-order env (Sounder-AdminWrites env) r))
        | Route.user r ↦
            Secures-bind (λ id. is_positive id ≡ true) _ _
              (Secures-Runs _ (user_auth-Runs req.headers)) (user_auth-Gives req.headers)
              (λ id h.
                Secures-Runs _
                  (handle_user-Runs Sounder-order env id (Sounder-UserWrites env id) r))
      ]

  -- A request, whatever it asks for and whichever statements fail, keeps that each assignment names a
  -- server of the system or of its user, that the ids of the servers are different and those of the
  -- users positive, and that every session is one of a positive id.
  pub serve-IsSecure :
      (cfg : Config) (req : Request) (s : Site) → IsSecure s → IsSecure (serve env cfg req s).1
  unfolding serve
  serve-IsSecure cfg req s h = (handle-Secures cfg req).at s h
