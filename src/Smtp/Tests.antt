-- ===== src/Smtp/Tests.antt =====
-- A client that guesses and a client that knows its password.
use smmail.Prelude.{
  find, eqb, some, arith, ◌≡◌, refl, Bytes, codes, List, [], ◌∷◌, map, false, split, to_lower,
  trim_space,
}
use smmail.Models.{QueueItem, User}
use smmail.Runtime.{ok, ◌>>=◌, exec, query_row}
use smmail.Repo.Users
use smmail.Repo.Events
use smmail.Repo.Queue
use smmail.Service.Auth.{validate}
use smmail.Service.Send.{extract_domain, handle_mail}
use smmail.Smtp.{
  Command, login, authenticate, mail, rcpt, data_read, reset, logout, auth, new_session, serve,
  handle, handle_auth, handle_from, handle_data, checked_name, after_call,
}
use smmail.Smtp.Refused.{serve-refused}
use smmail.Smtp.Submitted.{dialogue, serve-dialogue}
use smmail.Fixture.{calm, start, alice}

abbrev commands : Bytes → List Command
commands password =
    authenticate (login []) (codes "alice") password
    ∷ mail (codes "a@example.com")
    ∷ rcpt (codes "b@example.org")
    ∷ rcpt (codes "c@example.org")
    ∷ data_read (ok (codes "hello"))
    ∷ reset
    ∷ logout
    ∷ []

wrong_guess :
    (u : User)
    → find (λ (v : User). eqb v.username (codes "alice")) start.db.users.rows ≡ some u
    → eqb u.password_hash (codes "guess") ≡ false
wrong_guess u h = ground (arith, h)

serve_example : (serve calm (commands (codes "guess")) new_session start).1.db ≡ start.db
unfolding checked_name
serve_example =
    serve-refused calm (commands (codes "guess")) new_session start
      (wrong_guess, (tt, (tt, (tt, (tt, (tt, (tt, tt))))))) refl

queued_two :
    map
      (λ (q : QueueItem). q.rcpt_to)
      (serve calm (commands (codes "secret")) new_session start).1.db.outbound_queue.rows
    ≡ codes "b@Example.org"
      ∷ codes "b@Example.org"
      ∷ codes "b@Example.org"
      ∷ codes "b@example.org"
      ∷ codes "c@example.org"
      ∷ []
unfolding serve handle handle_auth handle_from handle_data checked_name validate handle_mail
    extract_domain split to_lower trim_space Users.get_by_username Events.create Queue.enqueue exec
    query_row ◌>>=◌
queued_two = refl

login_keeps : auth (codes "LOGIN") ≡ ok (after_call (login []) [])
unfolding auth after_call
login_keeps = refl

valid : (validate calm (codes "alice") (codes "secret") start).0 ≡ ok alice
unfolding validate Users.get_by_username query_row ◌>>=◌
valid = refl

abbrev recipients : List Bytes
recipients = codes "b@example.org" ∷ codes "c@example.org" ∷ []

serve-dialogue_example :
    serve calm
      (dialogue
        (login [])
        (codes "alice")
        (codes "secret")
        (codes "a@example.com")
        recipients
        (codes "hello"))
      new_session
      start
    ≡ (
      record { user = alice; mail_from = codes "a@example.com"; recipients = recipients },
      (handle_mail calm alice
          (codes "a@example.com")
          recipients
          (codes "hello")
          (validate calm (codes "alice") (codes "secret") start).1).1,
    )
unfolding checked_name
serve-dialogue_example =
    serve-dialogue calm (login []) (codes "alice") (codes "secret") (codes "a@example.com")
      recipients (codes "hello") alice start valid refl
