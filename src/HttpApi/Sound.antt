-- ===== src/HttpApi/Sound.antt =====
-- Who owns the upstream servers: a server is assigned only to its owner, or to anyone if it is the
-- system's (owner 0); and the ids of the users and of the servers are what the tables gave them.
pub mod Tables
pub mod Writes
pub mod Requests
pub mod Served
use smmail.Prelude.{
  ℕ, ◌≤◌, ◌≡◌, Bool, true, false, not, leb, ℤ, pos, negsuc, eqb_ℤ, is_positive, List, Option, none,
  some, All, find, count,
}
use smmail.Models.{User, UpstreamSmtp, UserSmtpAssignment}
use smmail.Models.Database.{Table, Database}
use smmail.HttpApi.Servers.{is_foreign}

abbrev pub has_id : ℤ → UpstreamSmtp → Bool
has_id id s = eqb_ℤ s.id id

-- The server that an assignment names is there, and may be assigned to the user.
abbrev pub suits : ℤ → Option UpstreamSmtp → Bool
suits user_id none = false
suits user_id (some s) = not (is_foreign user_id s)

abbrev pub is_owned : List UpstreamSmtp → UserSmtpAssignment → Bool
is_owned smtps a = suits a.user_id (find (has_id a.smtp_id) smtps)

-- An id that the table has given.
abbrev pub is_given : ℕ → ℤ → Bool
is_given last (pos n) = leb n last
is_given last (negsuc n) = false

pub record IsOwned (smtps : Table UpstreamSmtp) (assignments : List UserSmtpAssignment)
    : Type 0 where
  pub owned : All (λ a. is_owned smtps.rows a ≡ true) assignments
  pub given : All (λ (s : UpstreamSmtp). is_given smtps.last_id s.id ≡ true) smtps.rows
  pub one_id : (id : ℤ) → count (has_id id) smtps.rows ≤ 1

pub record IsSound (db : Database) : Type 0 where
  pub positive : All (λ (u : User). is_positive u.id ≡ true) db.users.rows
  pub servers : IsOwned db.upstream_smtps db.user_smtp_assignments.rows
