-- ===== src/HttpApi/Tests.antt =====
-- Requests to a small site, with the sessions of alice and of the admin.
use smmail.Prelude.{
  get_key, to_lower, ℕ, ◌≤◌, ◌≡◌, refl, true, false, Bytes, codes, ℤ, pos, negsuc, [], ◌∷◌, count,
  arith,
}
use smmail.Config.{Config}
use smmail.Models.{User, UpstreamSmtp, PackagePlan}
use smmail.Models.Database.{Database}
use smmail.HttpApi.Values.{encode_to_string}
use smmail.Service.Auth.{validate}
use smmail.Runtime.{ok}
use smmail.HttpApi.Forms.{Login}
use smmail.HttpApi.Accounts.{user_register}
use smmail.HttpApi.Accounts.Registered.{validate-user_register}
use smmail.HttpApi.Reply.{registered, ok_created}
use smmail.HttpApi.Forms.{Registration}
use smmail.Runtime.{World}
use smmail.Prelude.{eqb_iff}
use smmail.HttpApi.Reply.{call, ◌>>=◌}
use smmail.Fixture.{replicate, calm, database, start, alice, smtp_account}
use smmail.HttpApi.Reply.{Site, go, give, failed}
use smmail.HttpApi.Guards.{user_login, Headers, user_auth, live_session, request_token}
use smmail.HttpApi.Router.{Request, Route, UserRoute, AdminRoute, serve}
use smmail.HttpApi.Sound.{has_id}
use smmail.HttpApi.Sound.Served.{IsSecure, serve-IsSecure}
use smmail.HttpApi.Isolation.{SameFor}
use smmail.HttpApi.Isolation.Served.{is_authorized, serve_unauthorized, serve_user-SameFor}

abbrev pub config : Config
config = record {
  sqlite_path = codes "./smtp.db";
  http_listen_addr = codes ":8080";
  smtp_listen_addr = codes ":2525";
  admin_token = codes "change-me-admin-token";
  admin_username = codes "admin";
  admin_password = codes "admin123";
  upstream_smtp_host = [];
  upstream_smtp_port = codes "587";
  upstream_smtp_user = [];
  upstream_smtp_pass = [];
  upstream_mail_from = [];
}

-- Alice owns the server 3, and it is assigned to her.
abbrev own_server : UpstreamSmtp
own_server = record (smtp_account 3 (codes "mine")) { owner_user_id = pos 1 }

abbrev starter : PackagePlan
starter = record {
  id = pos 1;
  name = codes "starter";
  monthly_limit = pos 10000;
  limit_per_sec = pos 5;
  limit_per_min = pos 120;
  limit_per_hour = pos 3000;
  limit_per_day = pos 20000;
  throttle_ms = pos 0;
  is_default = true;
  created_at = 1600000000;
}

abbrev pub site_database : Database
site_database = record database {
  package_plans = record { rows = starter ∷ []; last_id = 1 };
  users = record {
    rows = alice ∷ record alice { id = pos 2; username = codes "bob" } ∷ [];
    last_id = 2;
  };
  upstream_smtps = record {
    rows = smtp_account 1 (codes "down") ∷ smtp_account 2 (codes "up") ∷ own_server ∷ [];
    last_id = 3;
  };
  user_smtp_assignments = record {
    rows =
        record {
          id = pos 1;
          user_id = pos 2;
          smtp_id = pos 1;
          weight = pos 1;
          enabled = true;
          created_at = 1600000000;
        }
        ∷ record {
          id = pos 2;
          user_id = pos 1;
          smtp_id = pos 3;
          weight = pos 1;
          enabled = true;
          created_at = 1600000000;
        }
        ∷ [];
    last_id = 2;
  };
}

abbrev pub site : Site
site = record {
  world = record start { db = site_database };
  sessions = (codes "token", record { user_id = pos 1; expires_at = 1800000000000000000 }) ∷ [];
  admin_sess = [];
}

abbrev pub headers : Headers
headers = record { x_admin_session = []; x_user_token = codes "token"; authorization = [] }

one_id : (id : ℤ) → count (has_id id) site_database.upstream_smtps.rows ≤ 1
one_id (pos n) = ground arith
one_id (negsuc n) = ground arith

pub site-IsSecure : IsSecure site
site-IsSecure = record {
  database = record {
    positive = (refl, (refl, tt));
    servers = record {
      owned = (refl, (refl, tt));
      given = (refl, (refl, (refl, tt)));
      one_id = one_id;
    };
  };
  users = (refl, tt);
}

abbrev pub deletion : Request
deletion = record { headers = headers; route = Route.user (UserRoute.user_delete_smtp (codes "3")) }

serve-IsSecure_example : IsSecure (serve calm config deletion site).1
serve-IsSecure_example = serve-IsSecure calm config deletion site site-IsSecure

-- Without the token, a request of the admin.
abbrev listing : Request
listing = record { headers = headers; route = Route.admin AdminRoute.list_users }

listing-refused : is_authorized calm listing site ≡ false
unfolding request_token to_lower
listing-refused = refl

serve_unauthorized_example :
    (text : Bytes) × (serve calm config listing site ≡ (failed 401 text, site))
serve_unauthorized_example = serve_unauthorized calm config listing site listing-refused

alice-go : (user_auth calm headers site).0 ≡ go (pos 1)
unfolding user_auth live_session request_token get_key give
alice-go = refl

serve_user-SameFor_example :
    SameFor (pos 2) site_database (serve calm config deletion site).1.world.db
serve_user-SameFor_example =
    serve_user-SameFor calm config headers (UserRoute.user_delete_smtp (codes "3")) site (pos 1)
      (pos 2) site-IsSecure alice-go refl

-- Runs of routes: what is sent, by its status.
abbrev status_of : Request → ℕ
status_of req = (serve calm config req site).0.status

-- Alice logs in, and the token that she gets lets her in again.
abbrev login : Login
login = record { username = codes "alice"; password = codes "secret" }

abbrev token : Bytes
token = encode_to_string (replicate 32 1)

abbrev logged_in : Site
logged_in = (user_login calm (ok login) site).1

abbrev headers_of_token : Headers
headers_of_token = record { x_admin_session = []; x_user_token = token; authorization = [] }

-- Carol registers.
abbrev registration : Registration
registration = record {
  username = codes "carol";
  password = codes "pass";
  display_name = codes "Carol";
}

abbrev with_carol : World
with_carol = (user_register calm (ok registration) site).1.world

register-go :
    (user_register calm (ok registration) site).0
    ≡ go (ok_created (registered (pos 3) (codes "starter")))
unfolding user_register ◌>>=◌ give call smmail.Service.Auth.hash_password
    smmail.Repo.Packages.get_default smmail.Runtime.query_row smmail.Repo.Users.create
register-go = refl

own_password :
    (t : ℕ) (hash : Bytes)
    → calm.hash_password t registration.password ≡ ok hash
    → calm.same_password hash registration.password ≡ true
own_password t hash h = (eqb_iff hash registration.password).1 (ground (arith, h))

validate-user_register_example :
    (u : User) × ((validate calm (codes "carol") (codes "pass") with_carol).0 ≡ ok u)
    × (u.id ≡ pos 3)
    × (u.plan_name ≡ codes "starter")
validate-user_register_example =
    validate-user_register calm registration site with_carol (pos 3) (codes "starter") own_password
      register-go refl refl
