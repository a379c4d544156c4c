-- ===== src/System/Tests.antt =====
-- A run of the program: a request, a round of the worker and an SMTP session.
use smmail.Prelude.{List, [], ◌∷◌, codes, arith}
use smmail.Runtime.{ok}
use smmail.Fixture.{calm}
use smmail.HttpApi.Reply.{Site}
use smmail.HttpApi.Router.{serve}
use smmail.HttpApi.Sound.Served.{IsSecure}
use smmail.HttpApi.Tests.{config, site, site-IsSecure, deletion}
use smmail.Service.Delivery.{process}
use smmail.Smtp
use smmail.Smtp.{Command, new_session, authenticate, mail, rcpt, data_read, plain}
use smmail.Repo.Packages.Flags.{HasOneDefault}
use smmail.System.Packages.{Reaches-HasOneDefault}
use smmail.System.{Reaches, here, request, session, round, Reaches-IsSecure}

abbrev after_request : Site
after_request = (serve calm config deletion site).1

abbrev after_round : Site
after_round = record after_request { world = (process calm after_request.world).1 }

abbrev commands : List Command
commands =
    authenticate plain (codes "alice") (codes "secret")
    ∷ mail (codes "a@example.com")
    ∷ rcpt (codes "b@example.org")
    ∷ data_read (ok (codes "hello"))
    ∷ []

abbrev after_session : Site
after_session = record after_round {
  world = (Smtp.serve calm commands new_session after_round.world).1;
}

run : Reaches calm config site after_session
run = session after_round commands (round after_request (request site deletion here))

Reaches-IsSecure_example : IsSecure after_session
Reaches-IsSecure_example = Reaches-IsSecure calm config site after_session run site-IsSecure

site-HasOneDefault : HasOneDefault site.world.db.package_plans.rows
site-HasOneDefault = record { one_name = λ n. ground arith; one_default = ground arith }

Reaches-HasOneDefault_example : HasOneDefault after_session.world.db.package_plans.rows
Reaches-HasOneDefault_example =
    Reaches-HasOneDefault calm config site after_session run site-HasOneDefault
