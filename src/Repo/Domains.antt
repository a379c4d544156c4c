-- ===== src/Repo/Domains.antt =====
-- internal/repo/domain_repo.go.
pub mod Stored
pub mod Refined
pub mod Tests
use smmail.Prelude.{
  Bool, ◌&&◌, Bytes, eqb, leb_text, ℤ, eqb_ℤ, List, find, any, filter, sort_by, if◌then◌else◌,
}
use smmail.Models.{DomainThrottle}
use smmail.Models.Database.{insert_row, update_rows, skip_id}
use smmail.Runtime.{Env, M, exec, query, query_row}

-- The key of the table: UNIQUE(user_id, domain).
abbrev pub is_rule : ℤ → Bytes → DomainThrottle → Bool
is_rule user_id domain d = eqb_ℤ d.user_id user_id && eqb d.domain domain

module _ (env : Env) where
  unfoldable pub upsert : ℤ → Bytes → ℤ → ℤ → M (Unit {0})
  upsert user_id domain limit_per_hour throttle_ms = exec env λ now db. record db {
    domain_throttles =
        if any (is_rule user_id domain) db.domain_throttles.rows
        then update_rows (is_rule user_id domain)
            (λ d. record d {
              limit_per_hour = limit_per_hour;
              throttle_ms = throttle_ms;
              updated_at = now;
            })
            (skip_id db.domain_throttles)
        else insert_row
            (λ id. record {
              id = id;
              user_id = user_id;
              domain = domain;
              limit_per_hour = limit_per_hour;
              throttle_ms = throttle_ms;
              created_at = now;
              updated_at = now;
            })
            db.domain_throttles;
  }

  unfoldable pub get : ℤ → Bytes → M DomainThrottle
  get user_id domain =
      query_row env λ now db. find (is_rule user_id domain) db.domain_throttles.rows

  unfoldable pub list_by_user : ℤ → M (List DomainThrottle)
  list_by_user user_id = query env λ now db.
      sort_by (λ d e. leb_text d.domain e.domain)
        (filter (λ d. eqb_ℤ d.user_id user_id) db.domain_throttles.rows)
