-- ===== src/HttpApi/Probes.antt =====
-- The handlers that try an upstream server, and the check of a new one. `%s:%d` of a host and a port
-- is given as the two.
use smmail.Prelude.{
  Bool, true, false, not, ◌&&◌, Bytes, codes, is_empty, trim_space, ℤ, pos, eqb_ℤ, List, [], ◌∷◌,
  ◌++◌, Option, none, some, any, if◌then◌else◌,
}
use smmail.Models.{UpstreamSmtp}
use smmail.Runtime.{
  Env, M, Error, message, Result, ok, err, Peer, Transmission, tick, send_mail, fail,
}
use smmail.Repo.Smtps
use smmail.HttpApi.Values.{parse_int64, default_if_zero, split_recipients, join_comma}
use smmail.HttpApi.Forms.{SmtpTest, StoredTest}
use smmail.HttpApi.Reply.{
  H, Response, sent, ok_with, failed, give, call, server_error, bad_gateway, always, bind_json,
  path_id, refuse_if, ◌>>=◌, ◌>>◌,
}

abbrev is_nil : List Bytes → Bool
is_nil [] = true
is_nil (r ∷ rest) = false

-- The text of a test mail, after its first line.
abbrev pub test_msg : List Bytes → Bytes → Bytes → Bytes
test_msg recipients subject text =
    codes "To: "
    ++ join_comma recipients
    ++ codes "\r\nSubject: "
    ++ subject
    ++ codes "\r\nMIME-Version: 1.0\r\nContent-Type: text/plain; charset=UTF-8\r\n\r\n"
    ++ text
    ++ codes "\r\n"

-- The mail of `smtpTest`.
abbrev pub test_mail : SmtpTest → Transmission
test_mail req =
    let recipients = split_recipients req.to in
    record {
      host = req.host;
      port = default_if_zero req.port (pos 25);
      authenticated = not (is_empty req.username);
      username = req.username;
      password = req.password;
      mail_from = req.mail_from;
      recipients = recipients;
      msg =
          codes "From: "
          ++ req.mail_from
          ++ codes "\r\n"
          ++ test_msg recipients req.subject req.body;
    }

-- The mail of `sendStoredSMTPTest`.
abbrev pub stored_mail : UpstreamSmtp → Bytes → Bytes → Bytes → Transmission
stored_mail acc to subject text =
    let recipients = split_recipients to in
    let from = trim_space acc.from_email in
    record {
      host = trim_space acc.host;
      port = acc.port;
      authenticated = not (is_empty (trim_space acc.username));
      username = acc.username;
      password = acc.password;
      mail_from = from;
      recipients = recipients;
      msg = codes "From: <" ++ from ++ codes ">\r\n" ++ test_msg recipients subject text;
    }

-- `if strings.TrimSpace(text) == "" { text = fallback }`.
abbrev or_text : Bytes → Bytes → Bytes
or_text text fallback = if is_empty (trim_space text) then fallback else text

-- `if err := m(); err != nil { return err }` and what follows it.
infixr 3 ◌or_else◌
abbrev ◌or_else◌ : Option Error → Option Error → Option Error
some e or_else next = some e
none or_else next = next

-- The conversation of `validateSMTPCredentials` with a server: its error, or none.
pub credentials_error : Peer → UpstreamSmtp → Option Error
credentials_error peer acc =
    let host = trim_space acc.host in
    let from = trim_space acc.from_email in
    peer.dial host acc.port
    or_else peer.new_client host
    or_else (if peer.extension (codes "STARTTLS") then peer.start_tls host else none)
    or_else (if peer.extension (codes "AUTH") && not (is_empty (trim_space acc.username))
        then peer.plain_auth acc.username acc.password host
        else none)
    or_else (if is_empty from then some (message (codes "from email is required")) else none)
    or_else peer.mail from
    or_else peer.reset
    or_else peer.quit

module _ (env : Env) where
  unfoldable pub validate_smtp_credentials : UpstreamSmtp → M (Unit {0})
  unfolding credentials_error
  validate_smtp_credentials acc w =
      (elim (credentials_error (env.peer w.ticks) acc) [ none ↦ ok tt | some e ↦ err e ], tick w)

  unfoldable pub send_stored_smtp_test : UpstreamSmtp → Bytes → Bytes → Bytes → M (Unit {0})
  send_stored_smtp_test acc to subject text =
      if is_nil (split_recipients to)
      then fail (message (codes "at least one recipient is required"))
      else if is_empty (trim_space acc.from_email)
      then fail (message (codes "smtp from email is empty"))
      else send_mail env (stored_mail acc to subject text)

  unfoldable pub smtp_test : Result SmtpTest → H Response
  smtp_test form = do
    req ← bind_json form
    refuse_if (is_nil (split_recipients req.to))
        (failed 400 (codes "at least one recipient is required"))
    call bad_gateway (send_mail env (test_mail req))
    give (ok_with sent)

  -- The end of `testSMTPAdmin` and of `userTestSMTP`.
  abbrev try_account : UpstreamSmtp → Bytes → Result StoredTest → H Response
  try_account acc text form = do
    req ← bind_json form
    call bad_gateway (
        send_stored_smtp_test acc req.to (or_text req.subject (codes "SMTP test"))
          (or_text req.body text))
    give (ok_with sent)

  unfoldable pub test_smtp_admin : Bytes → Result StoredTest → H Response
  test_smtp_admin id_text form = do
    smtp_id ← path_id (codes "invalid smtp id") (parse_int64 id_text)
    acc ← call (always 404 (codes "smtp not found")) (Smtps.get_by_id env smtp_id)
    try_account acc (codes "Test email from admin SMTP panel.") form

  -- The user owns the server, or it is assigned.
  abbrev may_test : ℤ → UpstreamSmtp → ℤ → H (Unit {0})
  may_test user_id acc smtp_id = if eqb_ℤ acc.owner_user_id user_id then give tt else (do
    assigned ← call server_error (Smtps.list_assigned env user_id)
    refuse_if (not (any (λ s. eqb_ℤ s.id smtp_id) assigned)) (failed 403 (codes "not allowed")))

  unfoldable pub user_test_smtp : ℤ → Bytes → Result StoredTest → H Response
  user_test_smtp user_id id_text form = do
    smtp_id ← path_id (codes "invalid smtp id") (parse_int64 id_text)
    acc ← call (always 404 (codes "smtp not found")) (Smtps.get_by_id env smtp_id)
    may_test user_id acc smtp_id
    try_account acc (codes "Test email from user SMTP panel.") form
