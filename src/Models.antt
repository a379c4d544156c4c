-- ===== src/Models.antt =====
-- internal/models/models.go and the tables of internal/db/db.go. A column of type DATETIME is a
-- number of seconds (SQLite writes `YYYY-MM-DD HH:MM:SS`); an `int` that a client chooses is an
-- integer; a status is one of the words that the program writes.
pub mod Database
use smmail.Prelude.{ℕ, Bool, Bytes, ℤ, List}

pub record User : Type 0 where
  pub id : ℤ
  pub username : Bytes
  pub password_hash : Bytes
  pub display_name : Bytes
  pub plan_name : Bytes
  pub monthly_limit : ℤ
  pub rotation_on : Bool
  pub enabled : Bool
  pub allow_user_smtp : Bool
  pub limit_per_sec : ℤ
  pub limit_per_min : ℤ
  pub limit_per_hour : ℤ
  pub limit_per_day : ℤ
  pub throttle_ms : ℤ
  pub created_at : ℕ
  pub updated_at : ℕ

pub record DomainThrottle : Type 0 where
  pub id : ℤ
  pub user_id : ℤ
  pub domain : Bytes
  pub limit_per_hour : ℤ
  pub throttle_ms : ℤ
  pub created_at : ℕ
  pub updated_at : ℕ

pub data EventStatus : Type 0 where
  queued sent failed rejected : EventStatus

pub record MailEvent : Type 0 where
  pub id : ℤ
  pub user_id : ℤ
  pub mail_from : Bytes
  pub rcpt_to : Bytes
  pub domain : Bytes
  pub status : EventStatus
  pub reason : Bytes
  pub created_at : ℕ

pub data QueueStatus : Type 0 where
  pending sent failed : QueueStatus

pub record QueueItem : Type 0 where
  pub id : ℤ
  pub user_id : ℤ
  pub mail_from : Bytes
  pub rcpt_to : Bytes
  pub body : Bytes  -- Data
  pub status : QueueStatus
  pub attempts : ℕ
  pub next_attempt_at : ℕ
  pub last_error : Bytes
  pub created_at : ℕ
  pub updated_at : ℕ

pub record PackagePlan : Type 0 where
  pub id : ℤ
  pub name : Bytes
  pub monthly_limit : ℤ
  pub limit_per_sec : ℤ
  pub limit_per_min : ℤ
  pub limit_per_hour : ℤ
  pub limit_per_day : ℤ
  pub throttle_ms : ℤ
  pub is_default : Bool
  pub created_at : ℕ

pub record UpstreamSmtp : Type 0 where
  pub id : ℤ
  pub owner_user_id : ℤ
  pub name : Bytes
  pub host : Bytes
  pub port : ℤ
  pub username : Bytes
  pub password : Bytes
  pub from_email : Bytes
  pub enabled : Bool
  pub created_at : ℕ

pub record UserSmtpAssignment : Type 0 where
  pub id : ℤ
  pub user_id : ℤ
  pub smtp_id : ℤ
  pub weight : ℤ
  pub enabled : Bool
  pub created_at : ℕ

-- The records of the usage reports.
pub record OverviewTotals : Type 0 where
  pub users_total : ℕ
  pub users_active : ℕ
  pub new_users_24h : ℕ
  pub logs_total : ℕ
  pub sent_24h : ℕ
  pub failed_24h : ℕ
  pub month_sent : ℕ
  pub queue_pending : ℕ
  pub queue_failed : ℕ
  pub queue_sent : ℕ

pub record UserUsage : Type 0 where
  pub user_id : ℤ
  pub username : Bytes
  pub display_name : Bytes
  pub plan_name : Bytes
  pub monthly_limit : ℤ
  pub allow_user_smtp : Bool
  pub month_sent : ℕ
  pub month_failed : ℕ
  pub day_sent : ℕ
  pub day_failed : ℕ

pub record AdminOverview : Type 0 where
  pub totals : OverviewTotals
  pub top_users : List UserUsage
  pub recent_events : List MailEvent

-- The tests `status='…'` of the statements.
abbrev pub is_sent : EventStatus → Bool
is_sent EventStatus.sent = Bool.true
is_sent _ = Bool.false

abbrev pub is_failed_event : EventStatus → Bool
is_failed_event EventStatus.failed = Bool.true
is_failed_event _ = Bool.false

abbrev pub is_failed : QueueStatus → Bool
is_failed QueueStatus.failed = Bool.true
is_failed _ = Bool.false

abbrev pub is_delivered : QueueStatus → Bool
is_delivered QueueStatus.sent = Bool.true
is_delivered _ = Bool.false

abbrev pub is_pending : QueueStatus → Bool
is_pending pending = Bool.true
is_pending _ = Bool.false
