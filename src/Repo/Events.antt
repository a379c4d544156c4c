-- ===== src/Repo/Events.antt =====
-- internal/repo/event_repo.go.
use smmail.Prelude.{
  ℕ, ◌-◌, ◌*◌, ◌/◌, Bool, true, false, ◌&&◌, Bytes, codes, eqb, is_empty, trim_space, to_lower, ℤ,
  eqb_ℤ, is_positive, pos_part, leb, List, [], ◌∷◌, ◌++◌, Option, none, some, filter, count, take,
  drop, reverse, if◌then◌else◌,
}
use smmail.Models.{MailEvent, is_sent}
use smmail.Models.Database.{Database, insert_row, delete_rows}
use smmail.Runtime.{Env, M, message, exec, query, fail, nanoseconds}

abbrev pub seconds_per_day : ℕ
seconds_per_day = 86400

-- ` AND user_id=?`, which is left out unless the id is positive.
abbrev pub of_user : ℤ → MailEvent → Bool
of_user user_id e = if is_positive user_id then eqb_ℤ e.user_id user_id else true

-- ` AND domain=?`, which is left out if the domain is blank.
abbrev pub of_domain : Bytes → MailEvent → Bool
of_domain domain e =
    if is_empty (trim_space domain) then true else eqb e.domain (to_lower (trim_space domain))

-- `status='sent' AND user_id=?`, with the domain.
abbrev pub is_sent_by : ℤ → Bytes → MailEvent → Bool
is_sent_by user_id domain e = is_sent e.status && (eqb_ℤ e.user_id user_id && of_domain domain e)

-- `SELECT COUNT(*) … AND created_at >= ?`, in seconds.
abbrev pub sent_since : ℤ → Bytes → ℕ → List MailEvent → ℕ
sent_since user_id domain since = count (λ e. is_sent_by user_id domain e && leb since e.created_at)

-- `SELECT created_at … ORDER BY created_at DESC LIMIT 1`.
abbrev later : ℕ → Option ℕ → Option ℕ
later t none = some t
later t (some u) = some (if leb u t then t else u)

abbrev pub last_of : ℤ → Bytes → List MailEvent → Option ℕ
last_of user_id domain [] = none
last_of user_id domain (e ∷ es) =
    let rest = last_of user_id domain es in
    if is_sent_by user_id domain e then later e.created_at rest else rest

-- `created_at >= DATETIME(?) AND created_at <= DATETIME(?)`: a text that is no date gives NULL, and
-- then no row is selected.
abbrev pub between : Option ℕ → Option ℕ → ℕ → Bool
between (some from) (some to) t = leb from t && leb t to
between _ _ t = false

-- `DELETE FROM mail_events WHERE …`.
abbrev delete_events : (MailEvent → Bool) → Database → Database
delete_events p db = record db { mail_events = delete_rows p db.mail_events }

module _ (env : Env) where
  unfoldable pub create : MailEvent → M (Unit {0})
  create e = exec env λ now db. record db {
    mail_events = insert_row (λ id. record e { id = id; created_at = now }) db.mail_events;
  }

  unfoldable pub list : ℤ → ℤ → ℤ → M (List MailEvent)
  list limit user_id offset = query env λ now db.
      take (if is_positive limit then pos_part limit else 200)
        (drop (pos_part offset) (reverse (filter (of_user user_id) db.mail_events.rows)))

  unfoldable pub count_all : ℤ → M ℕ
  count_all user_id = query env λ now db. count (of_user user_id) db.mail_events.rows

  unfoldable pub delete_all : ℤ → M (Unit {0})
  delete_all user_id = exec env λ now db. delete_events (of_user user_id) db

  unfoldable pub delete_since_days : ℤ → ℤ → M (Unit {0})
  delete_since_days user_id days =
      if is_positive days
      then exec env (λ now db.
        delete_events
          (λ e. leb (now - pos_part days * seconds_per_day) e.created_at && of_user user_id e) db)
      else fail (message (codes "days must be positive"))

  unfoldable pub delete_date_range : ℤ → Bytes → Bytes → M (Unit {0})
  delete_date_range user_id from_date to_date = exec env λ now db.
      delete_events
        (λ e.
          between (env.datetime (from_date ++ codes " 00:00:00"))
            (env.datetime (to_date ++ codes " 23:59:59")) e.created_at
          && of_user user_id e)
        db

  -- The time is written in whole seconds.
  unfoldable pub count_sent_since : ℤ → Bytes → ℕ → M ℕ
  count_sent_since user_id domain since =
      query env λ now db. sent_since user_id domain (since / nanoseconds) db.mail_events.rows

  -- `none` for `false`, and the time in nanoseconds.
  unfoldable pub last_sent_at : ℤ → Bytes → M (Option ℕ)
  last_sent_at user_id domain = query env λ now db.
      elim (last_of user_id domain db.mail_events.rows) [
        | none ↦ none
        | some t ↦ some (t * nanoseconds)
      ]
