-- ===== src/HttpApi/Forms.antt =====
-- The structs that the handlers bind. A field with `binding:"required"` is not empty, which is for
-- gin to test; a pointer that may be nil is an option.
use smmail.Prelude.{Bool, Bytes, ℤ, Option}

pub record Login : Type 0 where
  pub username : Bytes
  pub password : Bytes

-- `createUser`, and `updateUser` but for the name and the password.
pub record Account : Type 0 where
  pub display_name : Bytes
  pub plan_name : Bytes
  pub monthly_limit : ℤ
  pub rotation_on : Bool
  pub enabled : Bool
  pub allow_user_smtp : Option Bool
  pub limit_per_sec : ℤ
  pub limit_per_min : ℤ
  pub limit_per_hour : ℤ
  pub limit_per_day : ℤ
  pub throttle_ms : ℤ

pub record NewAccount : Type 0 where
  pub username : Bytes
  pub password : Bytes
  pub account : Account

pub record Registration : Type 0 where
  pub username : Bytes
  pub password : Bytes
  pub display_name : Bytes

pub record Rule : Type 0 where
  pub domain : Bytes
  pub limit_per_hour : ℤ
  pub throttle_ms : ℤ

-- `deleteEventsUser` and `deletePendingUser`; the forms of the admin have a user too.
pub record Deletion : Type 0 where
  pub mode : Bytes
  pub from_date : Bytes
  pub to_date : Bytes

pub record UserDeletion : Type 0 where
  pub user_id : ℤ
  pub deletion : Deletion

pub record Package : Type 0 where
  pub name : Bytes
  pub monthly_limit : ℤ
  pub limit_per_sec : ℤ
  pub limit_per_min : ℤ
  pub limit_per_hour : ℤ
  pub limit_per_day : ℤ
  pub throttle_ms : ℤ

pub record Server : Type 0 where
  pub name : Bytes
  pub host : Bytes
  pub port : ℤ
  pub username : Bytes
  pub password : Bytes
  pub from_email : Bytes
  pub enabled : Bool

-- `assignSMTPToUser`, and `userAssignSMTP`.
pub record Assignment : Type 0 where
  pub smtp_id : ℤ
  pub weight : ℤ
  pub enabled : Bool

pub record OwnAssignment : Type 0 where
  pub smtp_id : ℤ
  pub weight : ℤ
  pub rotation : Bool

pub record SmtpTest : Type 0 where
  pub host : Bytes
  pub port : ℤ
  pub username : Bytes
  pub password : Bytes
  pub mail_from : Bytes
  pub to : Bytes
  pub subject : Bytes
  pub body : Bytes

pub record StoredTest : Type 0 where
  pub to : Bytes
  pub subject : Bytes
  pub body : Bytes
