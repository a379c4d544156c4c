-- ===== src/Repo/Users.antt =====
-- internal/repo/user_repo.go.
pub mod Deleted
pub mod Tests
use smmail.Prelude.{false, Bytes, codes, eqb, ℤ, pos, List, find, any, reverse, if◌then◌else◌}
use smmail.Models.{User, PackagePlan, UserSmtpAssignment, DomainThrottle, MailEvent, QueueItem}
use smmail.Prelude.{suc, eqb_ℤ}
use smmail.Models.Database.{insert_row, update_rows, delete_rows}
use smmail.Runtime.{Env, M, message, ok, err, statement, exec, query, query_row, ◌>>◌}

module _ (env : Env) where
  -- The id and the two time stamps are the table's.
  unfoldable pub create : User → M ℤ
  create u = statement env λ now db.
      if any (λ v. eqb v.username u.username) db.users.rows
      then err (message (codes "UNIQUE constraint failed: users.username"))
      else ok (
        pos (suc db.users.last_id),
        record db {
          users =
              insert_row (λ id. record u { id = id; created_at = now; updated_at = now }) db.users;
        },
      )

  unfoldable pub update : ℤ → User → M (Unit {0})
  update id u = exec env λ now db. record db {
    users =
        update_rows (λ v. eqb_ℤ v.id id)
          (λ v. record v {
            display_name = u.display_name;
            plan_name = u.plan_name;
            monthly_limit = u.monthly_limit;
            rotation_on = u.rotation_on;
            enabled = u.enabled;
            allow_user_smtp = u.allow_user_smtp;
            limit_per_sec = u.limit_per_sec;
            limit_per_min = u.limit_per_min;
            limit_per_hour = u.limit_per_hour;
            limit_per_day = u.limit_per_day;
            throttle_ms = u.throttle_ms;
            updated_at = now;
          })
          db.users;
  }

  unfoldable pub set_password : ℤ → Bytes → M (Unit {0})
  set_password id password_hash = exec env λ now db. record db {
    users =
        update_rows (λ v. eqb_ℤ v.id id)
          (λ v. record v { password_hash = password_hash; updated_at = now }) db.users;
  }

  unfoldable pub get_by_username : Bytes → M User
  get_by_username username =
      query_row env λ now db. find (λ u. eqb u.username username) db.users.rows

  unfoldable pub get_by_id : ℤ → M User
  get_by_id id = query_row env λ now db. find (λ u. eqb_ℤ u.id id) db.users.rows

  unfoldable pub list : M (List User)
  list = query env λ now db. reverse db.users.rows

  unfoldable pub disable : ℤ → M (Unit {0})
  disable id = exec env λ now db. record db {
    users =
        update_rows (λ v. eqb_ℤ v.id id) (λ v. record v { enabled = false; updated_at = now })
          db.users;
  }

  -- Five statements, with no transaction around them.
  unfoldable pub delete_hard : ℤ → M (Unit {0})
  delete_hard id = do
    exec env (λ now db. record db {
      user_smtp_assignments =
          delete_rows (λ (a : UserSmtpAssignment). eqb_ℤ a.user_id id) db.user_smtp_assignments;
    })
    exec env (λ now db. record db {
      domain_throttles =
          delete_rows (λ (d : DomainThrottle). eqb_ℤ d.user_id id) db.domain_throttles;
    })
    exec env (λ now db. record db {
      mail_events = delete_rows (λ (e : MailEvent). eqb_ℤ e.user_id id) db.mail_events;
    })
    exec env (λ now db. record db {
      outbound_queue = delete_rows (λ (q : QueueItem). eqb_ℤ q.user_id id) db.outbound_queue;
    })
    exec env (λ now db. record db { users = delete_rows (λ (u : User). eqb_ℤ u.id id) db.users })

  unfoldable pub apply_package : ℤ → PackagePlan → M (Unit {0})
  apply_package user_id p = exec env λ now db. record db {
    users =
        update_rows (λ v. eqb_ℤ v.id user_id)
          (λ v. record v {
            plan_name = p.name;
            monthly_limit = p.monthly_limit;
            limit_per_sec = p.limit_per_sec;
            limit_per_min = p.limit_per_min;
            limit_per_hour = p.limit_per_hour;
            limit_per_day = p.limit_per_day;
            throttle_ms = p.throttle_ms;
            updated_at = now;
          })
          db.users;
  }
