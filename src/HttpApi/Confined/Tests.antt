-- ===== src/HttpApi/Confined/Tests.antt =====
-- Alice, whose account is restricted to the servers of the system, takes the server 2.
use smmail.Prelude.{◌≡◌, refl, true, false, pos, [], ◌∷◌, get_key}
use smmail.Runtime.{ok}
use smmail.Fixture.{calm, start, alice}
use smmail.HttpApi.Reply.{Site, go, give}
use smmail.HttpApi.Guards.{user_auth, live_session, request_token}
use smmail.HttpApi.Router.{Route, UserRoute, serve}
use smmail.HttpApi.Sound.Served.{IsSecure}
use smmail.HttpApi.Tests.{config, headers, site, site_database, site-IsSecure}
use smmail.HttpApi.Confined.{Confines}
use smmail.HttpApi.Confined.Served.{serve_user-Confines}

abbrev restricted_site : Site
restricted_site = record site {
  world = record start {
    db = record site_database {
      users = record { rows = record alice { allow_user_smtp = false } ∷ []; last_id = 1 };
    };
  };
}

abbrev taking : UserRoute
taking =
    UserRoute.user_assign_smtp (ok (record { smtp_id = pos 2; weight = pos 1; rotation = true }))

restricted-IsSecure : IsSecure restricted_site
restricted-IsSecure = record {
  database = record { positive = (refl, tt); servers = site-IsSecure.database.servers };
  users = (refl, tt);
}

restricted-go : (user_auth calm headers restricted_site).0 ≡ go (pos 1)
unfolding user_auth live_session request_token get_key give
restricted-go = refl

serve_user-Confines_example :
    Confines
      (pos 1)
      restricted_site.world.db
      (serve calm config
        (record { headers = headers; route = Route.user taking })
        restricted_site).1.world.db
serve_user-Confines_example =
    serve_user-Confines calm config headers taking restricted_site (pos 1)
      (record alice { allow_user_smtp = false }) restricted-IsSecure restricted-go refl refl
