-- ===== src/Smtp.antt =====
-- internal/smtp/server.go: the session that the SMTP server keeps for a client. go-smtp, which reads
-- the commands, and go-sasl, which reads an answer of the client, are no code of the repository: a
-- session is any sequence of calls of its methods.
pub mod Refused
pub mod Submitted
pub mod Kept
pub mod Tests
use smmail.Prelude.{
  ℕ, ◌*◌, Bool, true, false, Bytes, codes, eqb, eqb_ℤ, is_empty, List, [], ◌∷◌, ◌++◌, if◌then◌else◌,
  pos,
}
use smmail.Config.{Config}
use smmail.Models.{User}
use smmail.Runtime.{
  Env, World, M, nanoseconds, message, Result, ok, err, pure, fail, attempt, ◌>>=◌, ◌>>◌,
}
use smmail.Service.Auth.{validate}
use smmail.Service.Send.{handle_mail}

-- The zero value of a user.
abbrev pub no_user : User
no_user = record {
  id = pos 0;
  username = [];
  password_hash = [];
  display_name = [];
  plan_name = [];
  monthly_limit = pos 0;
  rotation_on = false;
  enabled = false;
  allow_user_smtp = false;
  limit_per_sec = pos 0;
  limit_per_min = pos 0;
  limit_per_hour = pos 0;
  limit_per_day = pos 0;
  throttle_ms = pos 0;
  created_at = 0;
  updated_at = 0;
}

-- What `NewServer` asks of go-smtp; the durations are in nanoseconds.
pub record Server : Type 0 where
  pub addr : Bytes
  pub domain : Bytes
  pub allow_insecure_auth : Bool
  pub max_recipients : ℕ
  pub max_message_bytes : ℕ
  pub read_timeout : ℕ
  pub write_timeout : ℕ

pub new_server : Config → Server
new_server cfg = record {
  addr = cfg.smtp_listen_addr;
  domain = codes "localhost";
  allow_insecure_auth = true;
  max_recipients = 100;
  max_message_bytes = 20 * 1024 * 1024;
  read_timeout = 30 * nanoseconds;
  write_timeout = 30 * nanoseconds;
}

-- `AuthMechanisms`.
abbrev pub auth_mechanisms : List Bytes
auth_mechanisms = codes "PLAIN" ∷ codes "LOGIN" ∷ []

-- `Session`, without the backend.
pub record Session : Type 0 where
  pub user : User
  pub mail_from : Bytes
  pub recipients : List Bytes

-- `NewSession`.
abbrev pub new_session : Session
new_session = record { user = no_user; mail_from = []; recipients = [] }

-- The functions that `Auth` gives to go-sasl; that of LOGIN keeps the first name that is not empty.
pub data SaslServer : Type 0 where
  plain : SaslServer
  login : Bytes → SaslServer

pub auth : Bytes → Result SaslServer
auth mech =
    if eqb mech (codes "PLAIN")
    then ok plain
    else if eqb mech (codes "LOGIN")
    then ok (login [])
    else err (message (codes "unsupported auth mechanism"))

-- The name that the function checks, when it is called with `user`.
pub checked_name : SaslServer → Bytes → Bytes
checked_name plain user = user
checked_name (login username) user = if is_empty username then user else username

-- The variables of the function after the call.
pub after_call : SaslServer → Bytes → SaslServer
after_call plain user = plain
after_call (login username) user = login (if is_empty username then user else username)

abbrev pub is_anonymous : Session → Bool
is_anonymous s = eqb_ℤ s.user.id (pos 0)

-- The calls that a server makes in a session; `data` has the result of reading the message.
pub data Command : Type 0 where
  authenticate : SaslServer → Bytes → Bytes → Command
  mail rcpt : Bytes → Command
  data_read : Result Bytes → Command
  reset logout : Command

-- A call that fails leaves the session as it was.
abbrev pub kept : Session → Result Session → Session
kept s (ok s') = s'
kept s (err e) = s

pub handle_from : Bytes → Session → M Session
handle_from from s =
    if is_anonymous s
    then fail (message (codes "auth required"))
    else pure (record s { mail_from = from; recipients = [] })

abbrev pub handle_rcpt : Bytes → Session → M Session
handle_rcpt to s = pure (record s { recipients = s.recipients ++ to ∷ [] })

module _ (env : Env) where
  pub handle_auth : SaslServer → Bytes → Bytes → Session → M Session
  handle_auth server user pass s = do
    u ← validate env (checked_name server user) pass
    pure (record s { user = u })

  -- What follows the test of the user.
  deliver_read : Result Bytes → Session → M Session
  deliver_read (ok body) s = do handle_mail env s.user s.mail_from s.recipients body; pure s
  deliver_read (err e) s = fail e

  pub handle_data : Result Bytes → Session → M Session
  unfolding deliver_read
  handle_data body s =
      if is_anonymous s then fail (message (codes "auth required")) else deliver_read body s

  -- `Reset` and `Logout` do nothing.
  pub handle : Command → Session → M Session
  handle (authenticate server user pass) s = handle_auth server user pass s
  handle (mail from) s = handle_from from s
  handle (rcpt to) s = handle_rcpt to s
  handle (data_read body) s = handle_data body s
  handle reset s = pure s
  handle logout s = pure s

  pub serve : List Command → Session → World → Session × World
  serve [] s w = (s, w)
  serve (c ∷ rest) s w = let (r, w') = handle c s w in serve rest (kept s r) w'
