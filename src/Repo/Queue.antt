-- ===== src/Repo/Queue.antt =====
-- internal/repo/queue_repo.go.
use smmail.Prelude.{
  ℕ, ◌+◌, ◌-◌, ◌*◌, ◌/◌, Bool, true, ◌&&◌, Bytes, codes, ℤ, pos, eqb_ℤ, is_positive, pos_part, leb,
  ltb_ℤ, List, [], ◌++◌, filter, count, take, drop, reverse, map, if◌then◌else◌,
}
use smmail.Models.{QueueItem, QueueStatus, is_pending}
use smmail.Models.Database.{Database, insert_row, update_rows, delete_rows}
use smmail.Runtime.{Env, M, message, exec, query, fail, nanoseconds}
use smmail.Repo.Events.{seconds_per_day, between}

abbrev pub of_user : ℤ → QueueItem → Bool
of_user user_id q = if is_positive user_id then eqb_ℤ q.user_id user_id else true

-- `status='pending' AND next_attempt_at <= CURRENT_TIMESTAMP`.
abbrev pub is_due : ℕ → QueueItem → Bool
is_due now q = is_pending q.status && leb q.next_attempt_at now

-- `DELETE FROM outbound_queue WHERE status='pending' AND …`.
abbrev delete_pending : (QueueItem → Bool) → Database → Database
delete_pending p db = record db {
  outbound_queue = delete_rows (λ q. is_pending q.status && p q) db.outbound_queue;
}

-- `UPDATE outbound_queue SET … WHERE id=?`.
abbrev update_item : ℤ → (QueueItem → QueueItem) → Database → Database
update_item id f db = record db {
  outbound_queue = update_rows (λ q. eqb_ℤ q.id id) f db.outbound_queue;
}

-- What the four statements set.
abbrev pub set_sent : ℕ → QueueItem → QueueItem
set_sent now q = record q { status = QueueStatus.sent; updated_at = now }

abbrev pub set_retry : Bytes → ℕ → QueueItem → QueueItem
set_retry err_msg now q = record q {
  attempts = q.attempts + 1;
  last_error = err_msg;
  next_attempt_at = now + 30;
  updated_at = now;
}

abbrev pub set_deferred : Bytes → ℕ → ℕ → QueueItem → QueueItem
set_deferred err_msg seconds now q = record q {
  last_error = err_msg;
  next_attempt_at = now + seconds;
  updated_at = now;
}

abbrev pub set_failed : Bytes → ℕ → QueueItem → QueueItem
set_failed err_msg now q = record q {
  status = QueueStatus.failed;
  attempts = q.attempts + 1;
  last_error = err_msg;
  updated_at = now;
}

-- The whole seconds that `Defer` waits: at least one.
abbrev pub deferred_seconds : ℤ → ℕ
deferred_seconds wait =
    pos_part (if ltb_ℤ wait (pos nanoseconds) then pos nanoseconds else wait) / nanoseconds

module _ (env : Env) where
  -- The columns that the statement leaves out take the table's defaults; `last_error` is NULL, which
  -- every reader turns into an empty text.
  unfoldable pub enqueue : QueueItem → M (Unit {0})
  enqueue item = exec env λ now db. record db {
    outbound_queue =
        insert_row
          (λ id. record item {
            id = id;
            status = QueueStatus.pending;
            attempts = 0;
            next_attempt_at = now;
            last_error = [];
            created_at = now;
            updated_at = now;
          })
          db.outbound_queue;
  }

  unfoldable pub dequeue_batch : ℕ → M (List QueueItem)
  dequeue_batch n = query env λ now db. take n (filter (is_due now) db.outbound_queue.rows)

  unfoldable pub mark_sent : ℤ → M (Unit {0})
  mark_sent id = exec env λ now db. update_item id (set_sent now) db

  unfoldable pub mark_retry : ℤ → Bytes → M (Unit {0})
  mark_retry id err_msg = exec env λ now db. update_item id (set_retry err_msg now) db

  unfoldable pub defer : ℤ → Bytes → ℤ → M (Unit {0})
  defer id err_msg wait =
      exec env λ now db. update_item id (set_deferred err_msg (deferred_seconds wait) now) db

  unfoldable pub mark_failed : ℤ → Bytes → M (Unit {0})
  mark_failed id err_msg = exec env λ now db. update_item id (set_failed err_msg now) db

  -- The statement leaves the column `data` out.
  unfoldable pub list_pending : ℤ → ℤ → ℤ → M (List QueueItem)
  list_pending limit user_id offset = query env λ now db.
      map {A = QueueItem} (λ q. record q { body = [] })
        (take (if is_positive limit then pos_part limit else 25) (
          drop (pos_part offset) (
            reverse
              (filter (λ q. is_pending q.status && of_user user_id q) db.outbound_queue.rows))))

  unfoldable pub count_pending : ℤ → M ℕ
  count_pending user_id =
      query env
        λ now db. count (λ q. is_pending q.status && of_user user_id q) db.outbound_queue.rows

  unfoldable pub delete_pending_all : ℤ → M (Unit {0})
  delete_pending_all user_id = exec env λ now db. delete_pending (of_user user_id) db

  unfoldable pub delete_pending_since_days : ℤ → ℤ → M (Unit {0})
  delete_pending_since_days user_id days =
      if is_positive days
      then exec env (λ now db.
        delete_pending
          (λ q. leb (now - pos_part days * seconds_per_day) q.created_at && of_user user_id q) db)
      else fail (message (codes "days must be positive"))

  unfoldable pub delete_pending_date_range : ℤ → Bytes → Bytes → M (Unit {0})
  delete_pending_date_range user_id from_date to_date = exec env λ now db.
      delete_pending
        (λ q.
          between (env.datetime (from_date ++ codes " 00:00:00"))
            (env.datetime (to_date ++ codes " 23:59:59")) q.created_at
          && of_user user_id q)
        db
