-- ===== src/Models/Database.antt =====
-- The SQLite database that internal/db/db.go creates: a table keeps its rows in the order of
-- their ids, which AUTOINCREMENT assigns in rising order, and the largest id it ever assigned.
use smmail.Prelude.{ℕ, suc, Bool, not, ℤ, pos, List, [], ◌∷◌, ◌++◌, filter, update}
use smmail.Models.{
  User, DomainThrottle, MailEvent, QueueItem, PackagePlan, UpstreamSmtp, UserSmtpAssignment,
}

pub record Table {ℓ} (A : Type ℓ) : Type ℓ where
  pub rows : List A
  pub last_id : ℕ

module _ {ℓ} {A : Type ℓ} where
  abbrev pub no_rows_yet : Table A
  no_rows_yet = record { rows = []; last_id = 0 }

  -- `INSERT`: the row is made from its new id.
  abbrev pub insert_row : (ℤ → A) → Table A → Table A
  insert_row row t = record {
    rows = t.rows ++ row (pos (suc t.last_id)) ∷ [];
    last_id = suc t.last_id;
  }

  -- An `INSERT` that meets a row which is there has taken an id, which is not given again.
  abbrev pub skip_id : Table A → Table A
  skip_id t = record t { last_id = suc t.last_id }

  -- `UPDATE … WHERE`.
  abbrev pub update_rows : (A → Bool) → (A → A) → Table A → Table A
  update_rows p f t = record t { rows = update p f t.rows }

  -- `DELETE … WHERE`.
  abbrev pub delete_rows : (A → Bool) → Table A → Table A
  delete_rows p t = record t { rows = filter (λ a. not (p a)) t.rows }

pub record Database : Type 0 where
  pub users : Table User
  pub domain_throttles : Table DomainThrottle
  pub mail_events : Table MailEvent
  pub outbound_queue : Table QueueItem
  pub package_plans : Table PackagePlan
  pub upstream_smtps : Table UpstreamSmtp
  pub user_smtp_assignments : Table UserSmtpAssignment

abbrev pub no_data : Database
no_data = record {
  users = no_rows_yet;
  domain_throttles = no_rows_yet;
  mail_events = no_rows_yet;
  outbound_queue = no_rows_yet;
  package_plans = no_rows_yet;
  upstream_smtps = no_rows_yet;
  user_smtp_assignments = no_rows_yet;
}
