-- ===== src/Service/Delivery/Quiet.antt =====
-- The runs that leave the counts of sent mail as they are.
pub mod Calls
pub mod Worker
use smmail.Prelude.{
  ℕ, suc, ◌-◌, ◌≤◌, ◌≡◌, refl, ◌⊎◌, inl, inr, false, ◌&&◌, Bytes, leb_ℤ, ℤ, pos, List, [], ◌∷◌,
  ◌++◌, Option, none, some, arith, leb, count-append,
}
use smmail.Models.{DomainThrottle, MailEvent, QueueItem, UpstreamSmtp, User, is_sent}
use smmail.Models.Database.{Database, insert_row}
use smmail.Runtime.{
  Env, World, M, Error, no_rows, message, Result, ok, err, tick, pure, fail, ◌>>=◌, timestamp, exec,
  query, query_row, send_mail, time_now,
}
use smmail.Runtime.Effects.{
  Steps, IsPreorder, Steps-pure, Steps-fail, Steps-time_now, Steps-bind, Steps-attempt, Steps-if,
  exec-cases, query-tick, query_row-tick,
}
use smmail.Repo.Events
use smmail.Repo.Events.{sent_since, is_sent_by, last_of}
use smmail.Repo.Users
use smmail.Repo.Domains
use smmail.Repo.Queue
use smmail.Repo.Smtps
use smmail.Service.Delivery.{
  defer_with_reason, domain_limits, throttled, limited, hold_if_limited, deliver_by_account,
  try_accounts, deliver, next_rr, LimitCheck, rule_limits, waits, throttled_by_user,
  throttled_by_domain, hold_by_domain, hold_at,
}

abbrev pub events : World → List MailEvent
events w = w.db.mail_events.rows

-- Time does not go back, the users and the domain rules stay, and no sent mail is recorded.
pub record Quiet (w w' : World) : Type 0 where
  pub later : w.ticks ≤ w'.ticks
  pub users_same : w'.db.users.rows ≡ w.db.users.rows
  pub rules_same : w'.db.domain_throttles.rows ≡ w.db.domain_throttles.rows
  pub counts :
      (user_id : ℤ) (domain : Bytes) (since : ℕ)
      → sent_since user_id domain since (events w') ≡ sent_since user_id domain since (events w)
  pub last_same :
      (user_id : ℤ) (domain : Bytes)
      → last_of user_id domain (events w') ≡ last_of user_id domain (events w)

pub Quiet-order : IsPreorder Quiet
Quiet-order = record {
  same = λ w. record {
    later = omega arith;
    users_same = refl;
    rules_same = refl;
    counts = λ u d s. refl;
    last_same = λ u d. refl;
  };
  chain = λ u v w h k. record {
    later = omega (arith, h.later, k.later);
    users_same = cc (h.users_same, k.users_same);
    rules_same = cc (h.rules_same, k.rules_same);
    counts = λ i d s. cc (h.counts i d s, k.counts i d s);
    last_same = λ i d. cc (h.last_same i d, k.last_same i d);
  };
}

pub Quiet-pure : {A : Type 0} (a : A) → Steps Quiet (pure a)
Quiet-pure = Steps-pure Quiet-order

pub Quiet-fail : {A : Type 0} (e : Error) → Steps Quiet (fail {A = A} e)
Quiet-fail = Steps-fail Quiet-order

pub Quiet-bind :
    {A B : Type 0} (m : M A) (f : A → M B)
    → Steps Quiet m
    → ((a : A) → Steps Quiet (f a))
    → Steps Quiet (m >>= f)
Quiet-bind = Steps-bind Quiet-order

pub Quiet-time_now : (env : Env) → Steps Quiet (time_now env)
Quiet-time_now = Steps-time_now Quiet-order

pub Quiet-tick : (w : World) → Quiet w (tick w)
Quiet-tick w = record {
  later = omega arith;
  users_same = refl;
  rules_same = refl;
  counts = λ u d s. refl;
  last_same = λ u d. refl;
}

pub last_of-append :
    (user_id : ℤ) (domain : Bytes) (es : List MailEvent) (e : MailEvent)
    → is_sent e.status ≡ false
    → last_of user_id domain (es ++ e ∷ []) ≡ last_of user_id domain es
last_of-append user_id domain [] e h = ground arith
last_of-append user_id domain (x ∷ es) e h = ground (arith, last_of-append user_id domain es e h)

module _ (env : Env) where
  -- A statement that leaves the two tables alone.
  pub exec-Quiet :
      (f : ℕ → Database → Database)
      → ((now : ℕ) (db : Database) → (f now db).mail_events.rows ≡ db.mail_events.rows)
      → ((now : ℕ) (db : Database) → (f now db).users.rows ≡ db.users.rows)
      → ((now : ℕ) (db : Database) → (f now db).domain_throttles.rows ≡ db.domain_throttles.rows)
      → Steps Quiet (exec env f)
  exec-Quiet f same_events same_users same_rules = record {
    at = λ w. elim (exec-cases env f w) [
      | inl e ↦ rw e (Quiet-tick w)
      | inr e ↦ rw e (record {
        later = omega arith;
        users_same = same_users (timestamp env w.ticks) w.db;
        rules_same = same_rules (timestamp env w.ticks) w.db;
        counts = λ u d s. rw (same_events (timestamp env w.ticks) w.db) refl;
        last_same = λ u d. rw (same_events (timestamp env w.ticks) w.db) refl;
      })
    ];
  }

  pub query-Quiet : {A : Type 0} (f : ℕ → Database → A) → Steps Quiet (query env f)
  query-Quiet f = record { at = λ w. rw (query-tick env f w) (Quiet-tick w) }

  pub query_row-Quiet : {A : Type 0} (f : ℕ → Database → Option A) → Steps Quiet (query_row env f)
  query_row-Quiet f = record { at = λ w. rw (query_row-tick env f w) (Quiet-tick w) }
