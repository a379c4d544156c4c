-- ===== src/System/Kept.antt =====
-- What every run of the program keeps, from what the statements that write keep.
use smmail.Prelude.{Bool, true, false, Bytes, ℤ, ℕ, if◌then◌else◌}
use smmail.Config.{Config}
use smmail.Models.{User}
use smmail.Models.Database.{Database}
use smmail.Runtime.{Env, Error, Result}
use smmail.Runtime.Kept.{IsDatabaseOrder}
use smmail.Service.Auth.{validate}
use smmail.Service.Auth.Valid.{validate-tick}
use smmail.Service.Send.Kept.{MailWrites}
use smmail.Service.Delivery.Kept.{process-On}
use smmail.Smtp.{new_session}
use smmail.Smtp.Kept.{serve-On}
use smmail.HttpApi.Forms.{Login, Registration, SmtpTest}
use smmail.HttpApi.Reply.{Site, Answer, go, reply, H, Response, proceed, give, call, ◌>>=◌}
use smmail.HttpApi.Guards.{open_user, open_admin, random_token, user_login, admin_login}
use smmail.HttpApi.Guards.Checked.{user_auth-same, admin_auth-same}
use smmail.HttpApi.Accounts.{user_register}
use smmail.HttpApi.Probes
use smmail.HttpApi.Effects.{Runs, Runs-bind_json, Runs-call, Runs-send, runs_rules, read_rules}
use smmail.HttpApi.Handled.{UserWrites, AdminWrites, handle_user-Runs, handle_admin-Runs}
use smmail.HttpApi.Router.{Request, Route, handle, serve}
use smmail.System.{Reaches, here, request, session, round}

-- What the statements of all parts keep.
pub record AllWrites (D : Database → Database → Type 0) (env : Env) : Type 0 where
  pub mail : MailWrites D env
  pub user : (id : ℤ) → UserWrites D env id
  pub admin : AdminWrites D env

-- The databases before and after a handler are related.
record Relates (D : Database → Database → Type 0) {A : Type 0} (m : H A) : Type 0 where
  at : (s : Site) → D s.world.db (m s).1.world.db

module _ {D : Database → Database → Type 0} where
  Relates-Runs : {A : Type 0} (m : H A) → Runs D m → Relates D m
  Relates-Runs m h = record { at = λ s. (h.at s).kept }

  Relates-if :
      {A : Type 0} (b : Bool) (m n : H A)
      → Relates D m
      → Relates D n
      → Relates D (if b then m else n)
  Relates-if true m n h k = h
  Relates-if false m n h k = k

module _ {D : Database → Database → Type 0} (order : IsDatabaseOrder D) where
  proceed-Relates :
      {A B : Type 0} (f : A → H B) (a : Answer A) (db : Database) (t : Site)
      → D db t.world.db
      → ((x : A) → Relates D (f x))
      → D db (proceed f a t).1.world.db
  proceed-Relates f (go x) db t h k = order.chain db t.world.db (f x t).1.world.db h ((k x).at t)
  proceed-Relates f (reply r) db t h k = h

  Relates-bind :
      {A B : Type 0} (m : H A) (f : A → H B)
      → Relates D m
      → ((a : A) → Relates D (f a))
      → Relates D (m >>= f)
  unfolding ◌>>=◌
  Relates-bind m f h k = record {
    at = λ s. proceed-Relates f (m s).0 s.world.db (m s).1 (h.at s) k;
  }

  module _ (env : Env) where
    validated-Runs :
        (f : Error → Response) (name password : Bytes)
        → Runs D (call f (validate env name password))
    validated-Runs f name password = Runs-call f _ (record {
      at = λ w. rw (validate-tick env name password w) (record { kept = order.same w.db });
    })

    random-Runs : (f : Error → Response) (size : ℕ) → Runs D (call f (random_token env size))
    unfolding random_token
    random-Runs f size = Runs-call f _ (record { at = λ w. record { kept = order.same w.db } })

    open_user-Relates : (token : Bytes) (u : User) → Relates D (open_user env token u)
    unfolding open_user give
    open_user-Relates token u = record { at = λ s. order.same s.world.db }

    open_admin-Relates : (token : Bytes) → Relates D (open_admin env token)
    unfolding open_admin give
    open_admin-Relates token = record { at = λ s. order.same s.world.db }

    user_login-Relates : (form : Result Login) → Relates D (user_login env form)
    unfolding user_login
    user_login-Relates form = Relates-bind _ _ (Relates-Runs _ (Runs-bind_json order form)) (λ req.
        Relates-bind _ _ (Relates-Runs _ (validated-Runs _ req.username req.password)) (λ u.
          Relates-bind _ _ (Relates-Runs _ (random-Runs _ 32))
            (λ token. open_user-Relates token u)))

    admin_login-Relates :
        (cfg : Config) (form : Result Login) → Relates D (admin_login env cfg form)
    unfolding admin_login
    admin_login-Relates cfg form =
        Relates-bind _ _ (Relates-Runs _ (Runs-bind_json order form)) (λ req.
          Relates-if _ _ _ (Relates-Runs _ (Runs-send order _)) (
            Relates-bind _ _ (Relates-Runs _ (random-Runs _ 32))
              (λ token. open_admin-Relates token)))

    smtp_test-Runs : (form : Result SmtpTest) → Runs D (Probes.smtp_test env form)
    unfolding Probes.smtp_test
    smtp_test-Runs form = search (runs_rules, read_rules, order) depth 12

    module _ (laws : AllWrites D env) where
      user_register-Runs : (form : Result Registration) → Runs D (user_register env form)
      unfolding user_register
      user_register-Runs form = search (runs_rules, read_rules, order, laws.admin.create) depth 12

      handle-Relates : (cfg : Config) (req : Request) → Relates D (handle env cfg req)
      unfolding handle
      handle-Relates cfg req =
          elim req.route as (λ r. Relates D (handle env cfg (record req { route = r }))) [
            | Route.smtp_test form ↦ Relates-Runs _ (smtp_test-Runs form)
            | Route.admin_login form ↦ admin_login-Relates cfg form
            | Route.user_login form ↦ user_login-Relates form
            | Route.user_register form ↦ Relates-Runs _ (user_register-Runs form)
            | Route.admin r ↦
                Relates-bind _ _
                  (record {
                    at = λ s. rw (admin_auth-same env req.headers s) (order.same s.world.db);
                  })
                  (λ _. Relates-Runs _ (handle_admin-Runs order env laws.admin r))
            | Route.user r ↦
                Relates-bind _ _
                  (record {
                    at = λ s. rw (user_auth-same env req.headers s) (order.same s.world.db);
                  })
                  (λ id. Relates-Runs _ (handle_user-Runs order env id (laws.user id) r))
          ]

      serve-kept :
          (cfg : Config) (req : Request) (s : Site) → D s.world.db (serve env cfg req s).1.world.db
      unfolding serve
      serve-kept cfg req s = (handle-Relates cfg req).at s

      -- The databases of two sites, one of which the program comes to from the other, are related.
      pub Reaches-kept : (cfg : Config) (s t : Site) → Reaches env cfg s t → D s.world.db t.world.db
      Reaches-kept cfg s t here = order.same s.world.db
      Reaches-kept cfg s _ (request t req r) =
          order.chain _ t.world.db _ (Reaches-kept cfg s t r) (serve-kept cfg req t)
      Reaches-kept cfg s _ (session t commands r) =
          order.chain _ t.world.db _ (Reaches-kept cfg s t r)
            (serve-On order env laws.mail commands new_session t.world).kept
      Reaches-kept cfg s _ (round t r) =
          order.chain _ t.world.db _ (Reaches-kept cfg s t r)
            ((process-On order env laws.mail).at t.world).kept
