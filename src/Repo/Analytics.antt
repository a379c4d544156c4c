-- ===== src/Repo/Analytics.antt =====
-- internal/repo/analytics_repo.go.
pub mod Agreed
pub mod Tests
use smmail.Prelude.{
  ℕ, ◌-◌, Bool, ◌&&◌, ◌||◌, ltb, leb, ◌==◌, ℤ, eqb_ℤ, leb_ℤ, pos, pos_part, List, none, some, count,
  find, map, take, sort_by, length, if◌then◌else◌,
}
use smmail.Models.{
  User, MailEvent, QueueItem, OverviewTotals, UserUsage, is_sent, is_failed_event, is_pending,
  is_failed, is_delivered,
}
use smmail.Runtime.{Env, M, query, query_row, pure, ◌>>=◌}
use smmail.Repo.Events.{seconds_per_day}

-- The rows of the join for one user: those of the status since a time.
abbrev pub sent_rows : ℤ → ℕ → List MailEvent → ℕ
sent_rows user_id since es =
    count (λ e. eqb_ℤ e.user_id user_id && (is_sent e.status && leb since e.created_at)) es

abbrev pub failed_rows : ℤ → ℕ → List MailEvent → ℕ
failed_rows user_id since es =
    count (λ e. eqb_ℤ e.user_id user_id && (is_failed_event e.status && leb since e.created_at)) es

-- One row of `ListUserUsage`, for the times from which the month and the day count.
abbrev pub usage_row : ℕ → ℕ → List MailEvent → User → UserUsage
usage_row month day es u = record {
  user_id = u.id;
  username = u.username;
  display_name = u.display_name;
  plan_name = u.plan_name;
  monthly_limit = u.monthly_limit;
  allow_user_smtp = u.allow_user_smtp;
  month_sent = sent_rows u.id month es;
  month_failed = failed_rows u.id month es;
  day_sent = sent_rows u.id day es;
  day_failed = failed_rows u.id day es;
}

-- The row of `UserUsage`, which has a SELECT of its own.
abbrev pub usage_row_of : ℕ → ℕ → List MailEvent → User → UserUsage
usage_row_of month day es u = record {
  user_id = u.id;
  username = u.username;
  display_name = u.display_name;
  plan_name = u.plan_name;
  monthly_limit = u.monthly_limit;
  allow_user_smtp = u.allow_user_smtp;
  month_sent = sent_rows u.id month es;
  month_failed = failed_rows u.id month es;
  day_sent = sent_rows u.id day es;
  day_failed = failed_rows u.id day es;
}

-- `ORDER BY month_sent DESC, u.id ASC`.
abbrev pub before : UserUsage → UserUsage → Bool
before u v =
    ltb v.month_sent u.month_sent || (u.month_sent == v.month_sent && leb_ℤ u.user_id v.user_id)

-- `LIMIT ?`, where a negative limit is none.
abbrev pub limited_to {ℓ} : {A : Type ℓ} → ℤ → List A → List A
limited_to limit xs = if leb_ℤ (pos 0) limit then take (pos_part limit) xs else xs

module _ (env : Env) where
  unfoldable pub overview_totals : M OverviewTotals
  overview_totals = do
    users_total ← query env (λ now db. length db.users.rows)
    users_active ← query env (λ now db. count (λ (u : User). u.enabled) db.users.rows)
    new_users_24h ←
        query env
          (λ now db. count (λ (u : User). leb (now - seconds_per_day) u.created_at) db.users.rows)
    logs_total ← query env (λ now db. length db.mail_events.rows)
    sent_24h ← query env (λ now db.
        count (λ (e : MailEvent). is_sent e.status && leb (now - seconds_per_day) e.created_at)
          db.mail_events.rows)
    failed_24h ← query env (λ now db.
        count
          (λ (e : MailEvent). is_failed_event e.status && leb (now - seconds_per_day) e.created_at)
          db.mail_events.rows)
    month_sent ← query env (λ now db.
        count (λ (e : MailEvent). is_sent e.status && leb (env.month_start now) e.created_at)
          db.mail_events.rows)
    queue_pending ←
        query env (λ now db. count (λ (q : QueueItem). is_pending q.status) db.outbound_queue.rows)
    queue_failed ←
        query env (λ now db. count (λ (q : QueueItem). is_failed q.status) db.outbound_queue.rows)
    queue_sent ←
        query env
          (λ now db. count (λ (q : QueueItem). is_delivered q.status) db.outbound_queue.rows)
    pure (record {
      users_total = users_total;
      users_active = users_active;
      new_users_24h = new_users_24h;
      logs_total = logs_total;
      sent_24h = sent_24h;
      failed_24h = failed_24h;
      month_sent = month_sent;
      queue_pending = queue_pending;
      queue_failed = queue_failed;
      queue_sent = queue_sent;
    })

  unfoldable pub list_user_usage : ℤ → M (List UserUsage)
  list_user_usage limit = query env λ now db. limited_to limit (
      sort_by before (
        map (usage_row (env.month_start now) (now - seconds_per_day) db.mail_events.rows)
          db.users.rows))

  unfoldable pub user_usage : ℤ → M UserUsage
  user_usage user_id = query_row env λ now db. elim (find (λ u. eqb_ℤ u.id user_id) db.users.rows) [
    | none ↦ none
    | some u ↦
        some (usage_row_of (env.month_start now) (now - seconds_per_day) db.mail_events.rows u)
  ]
