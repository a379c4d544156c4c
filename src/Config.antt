-- ===== src/Config.antt =====
-- internal/config/config.go. The variables of the process are a function: a variable that is not set
-- is empty, as `os.Getenv` has it.
use smmail.Prelude.{Bytes, codes, is_empty, [], if◌then◌else◌}

pub record Config : Type 0 where
  pub sqlite_path : Bytes
  pub http_listen_addr : Bytes
  pub smtp_listen_addr : Bytes
  pub admin_token : Bytes
  pub admin_username : Bytes
  pub admin_password : Bytes
  pub upstream_smtp_host : Bytes
  pub upstream_smtp_port : Bytes
  pub upstream_smtp_user : Bytes
  pub upstream_smtp_pass : Bytes
  pub upstream_mail_from : Bytes

abbrev pub getenv : (Bytes → Bytes) → Bytes → Bytes → Bytes
getenv variables key fallback = let v = variables key in if is_empty v then fallback else v

pub load : (Bytes → Bytes) → Config
load variables = record {
  sqlite_path = getenv variables (codes "SQLITE_PATH") (codes "./smtp.db");
  http_listen_addr = getenv variables (codes "HTTP_LISTEN_ADDR") (codes ":8080");
  smtp_listen_addr = getenv variables (codes "SMTP_LISTEN_ADDR") (codes ":2525");
  admin_token = getenv variables (codes "ADMIN_TOKEN") (codes "change-me-admin-token");
  admin_username = getenv variables (codes "ADMIN_USERNAME") (codes "admin");
  admin_password = getenv variables (codes "ADMIN_PASSWORD") (codes "admin123");
  upstream_smtp_host = getenv variables (codes "UPSTREAM_SMTP_HOST") [];
  upstream_smtp_port = getenv variables (codes "UPSTREAM_SMTP_PORT") (codes "587");
  upstream_smtp_user = getenv variables (codes "UPSTREAM_SMTP_USER") [];
  upstream_smtp_pass = getenv variables (codes "UPSTREAM_SMTP_PASS") [];
  upstream_mail_from = getenv variables (codes "UPSTREAM_MAIL_FROM") [];
}
