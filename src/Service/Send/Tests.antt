-- ===== src/Service/Send/Tests.antt =====
-- A mail to three recipients, one of which has no domain.
use smmail.Prelude.{◌≡◌, refl, codes, List, [], ◌∷◌, Bytes, split, trim_space, to_lower}
use smmail.Service.Send.{extract_domain, handle_mail}
use smmail.Service.Send.Accepted.{Submitted, handle_mail-Submitted, accepted}
use smmail.Fixture.{calm, start, alice}

abbrev to : List Bytes
to = codes "a@Example.org" ∷ codes "nobody" ∷ codes "c@example.org" ∷ []

only_first : accepted to ≡ codes "a@Example.org" ∷ []
unfolding extract_domain split trim_space to_lower
only_first = refl

handle_mail_example :
    Submitted calm
      (λ t. refl)
      alice
      (codes "me@x.org")
      (codes "hello")
      to
      start
      (handle_mail calm alice (codes "me@x.org") to (codes "hello") start)
handle_mail_example =
    handle_mail-Submitted calm (λ t. refl) alice (codes "me@x.org") to (codes "hello") start
