-- ===== src/Fixture.antt =====
-- A small database and an environment in which nothing fails.
use smmail.Prelude.{
  ℕ, zero, suc, ◌+◌, ◌-◌, ◌*◌, ◌%◌, true, false, Bytes, codes, eqb, pos, [], ◌∷◌, none, some,
  if◌then◌else◌,
}
use smmail.Models.{User, QueueItem, QueueStatus, UpstreamSmtp, UserSmtpAssignment}
use smmail.Models.Database.{Database, no_data}
use smmail.Runtime.{Env, World, Peer, message, ok}

-- A server that takes everything, without TLS.
abbrev open_peer : Peer
open_peer = record {
  dial = λ host port. none;
  new_client = λ host. none;
  extension = λ name. false;
  start_tls = λ host. none;
  plain_auth = λ username password host. none;
  mail = λ from. none;
  reset = none;
  quit = none;
}

abbrev pub replicate : ℕ → ℕ → Bytes
replicate zero c = []
replicate (suc n) c = c ∷ replicate n c

-- The servers whose host is `down` refuse everything; a password is its own hash.
abbrev pub calm : Env
calm = record {
  clock = λ t. 1700000000000000000 + t * 1000000;
  fault = λ t. none;
  relay = λ t x. if eqb x.host (codes "down") then some (message (codes "refused")) else none;
  datetime = λ s. none;
  month_start = λ t. t - t % 2592000;
  same_password = eqb;
  hash_password = λ t password. ok password;
  random = λ t size. ok (replicate size (t % 256));
  peer = λ t. open_peer;
}

abbrev pub alice : User
alice = record {
  id = pos 1;
  username = codes "alice";
  password_hash = codes "secret";
  display_name = codes "Alice";
  plan_name = codes "starter";
  monthly_limit = pos 10000;
  rotation_on = false;
  enabled = true;
  allow_user_smtp = true;
  limit_per_sec = pos 5;
  limit_per_min = pos 2;
  limit_per_hour = pos 3000;
  limit_per_day = pos 0;
  throttle_ms = pos 0;
  created_at = 1600000000;
  updated_at = 1600000000;
}

abbrev pub smtp_account : ℕ → Bytes → UpstreamSmtp
smtp_account id host = record {
  id = pos id;
  owner_user_id = pos 0;
  name = host;
  host = host;
  port = pos 587;
  username = codes "relay";
  password = codes "pw";
  from_email = codes "out@example.com";
  enabled = true;
  created_at = 1600000000;
}

abbrev pub assignment : ℕ → ℕ → UserSmtpAssignment
assignment id smtp_id = record {
  id = pos id;
  user_id = pos 1;
  smtp_id = pos smtp_id;
  weight = pos 1;
  enabled = true;
  created_at = 1600000000;
}

abbrev pub queued_item : ℕ → QueueItem
queued_item id = record {
  id = pos id;
  user_id = pos 1;
  mail_from = codes "a@example.com";
  rcpt_to = codes "b@Example.org";
  body = codes "Subject: hi\r\nFrom: a@example.com\r\n\r\nhello";
  status = QueueStatus.pending;
  attempts = 0;
  next_attempt_at = 1600000000;
  last_error = [];
  created_at = 1600000000;
  updated_at = 1600000000;
}

abbrev pub database : Database
database = record no_data {
  users = record { rows = alice ∷ []; last_id = 1 };
  upstream_smtps = record {
    rows = smtp_account 1 (codes "down") ∷ smtp_account 2 (codes "up") ∷ [];
    last_id = 2;
  };
  user_smtp_assignments = record { rows = assignment 1 1 ∷ assignment 2 2 ∷ []; last_id = 2 };
  outbound_queue = record {
    rows = queued_item 1 ∷ queued_item 2 ∷ queued_item 3 ∷ [];
    last_id = 3;
  };
}

abbrev pub start : World
start = record { db = database; rr_index = []; transmissions = []; ticks = 0 }
