-- ===== src/HttpApi/Isolation.antt =====
-- What a user's request leaves alone: the rows of every other user.
pub mod Writes
pub mod Requests
pub mod Served
use smmail.Prelude.{
  ℕ, ◌≡◌, refl, sym, ◌∙◌, Bool, true, false, not, ◌&&◌, Bytes, ℤ, pos, eqb_ℤ, eqb_ℤ_iff,
  is_positive, filter, any, find, if◌then◌else◌, Bool-cases, inl, inr, filter-filter_other,
  filter-update_other, filter-insert_other, filter-filter_one, arith,
}
use smmail.Models.{
  User, PackagePlan, MailEvent, QueueItem, UpstreamSmtp, UserSmtpAssignment, DomainThrottle,
  is_pending,
}
use smmail.Models.Database.{Database, Table, insert_row, update_rows, delete_rows}
use smmail.Runtime.{M}
use smmail.Runtime.Effects.{Steps, Steps-if}
use smmail.Runtime.Kept.{IsDatabaseOrder, On, On-exec, On-fail}
use smmail.Repo.Users
use smmail.Repo.Events
use smmail.Repo.Queue
use smmail.Repo.Smtps
use smmail.Repo.Smtps.{is_assignment}
use smmail.HttpApi.Reply.{H}
use smmail.HttpApi.Effects.{Runs}
use smmail.HttpApi.Sound.{IsSound}
use smmail.HttpApi.Sound.Tables.{assigned}
use smmail.HttpApi.Sound.Writes.{
  Sounder, Deletes-Sounder, update-Sounder, apply_package-Sounder, unassign-Sounder,
}

-- The rows of a user, the packages and the domain rules of all are the same in both databases.
pub record SameFor (v : ℤ) (db db' : Database) : Type 0 where
  pub users_same :
      filter (λ (u : User). eqb_ℤ u.id v) db'.users.rows
      ≡ filter (λ (u : User). eqb_ℤ u.id v) db.users.rows
  pub events_same :
      filter (λ (e : MailEvent). eqb_ℤ e.user_id v) db'.mail_events.rows
      ≡ filter (λ (e : MailEvent). eqb_ℤ e.user_id v) db.mail_events.rows
  pub queue_same :
      filter (λ (q : QueueItem). eqb_ℤ q.user_id v) db'.outbound_queue.rows
      ≡ filter (λ (q : QueueItem). eqb_ℤ q.user_id v) db.outbound_queue.rows
  pub servers_same :
      filter (λ (s : UpstreamSmtp). eqb_ℤ s.owner_user_id v) db'.upstream_smtps.rows
      ≡ filter (λ (s : UpstreamSmtp). eqb_ℤ s.owner_user_id v) db.upstream_smtps.rows
  pub assignments_same :
      filter (λ (a : UserSmtpAssignment). eqb_ℤ a.user_id v) db'.user_smtp_assignments.rows
      ≡ filter (λ (a : UserSmtpAssignment). eqb_ℤ a.user_id v) db.user_smtp_assignments.rows
  pub plans_same : db'.package_plans.rows ≡ db.package_plans.rows
  pub rules_same : db'.domain_throttles.rows ≡ db.domain_throttles.rows

pub SameFor-refl : (v : ℤ) (db : Database) → SameFor v db db
SameFor-refl v db = record {
  users_same = refl;
  events_same = refl;
  queue_same = refl;
  servers_same = refl;
  assignments_same = refl;
  plans_same = refl;
  rules_same = refl;
}

-- A sound database stays sound, and the rows of `v` stay the same.
pub record Apart (v : ℤ) (db db' : Database) : Type 0 where
  pub sound : IsSound db → IsSound db'
  pub others : IsSound db → SameFor v db db'

SameFor-trans : (v : ℤ) (a b c : Database) → SameFor v a b → SameFor v b c → SameFor v a c
SameFor-trans v a b c x y = record {
  users_same = y.users_same ∙ x.users_same;
  events_same = y.events_same ∙ x.events_same;
  queue_same = y.queue_same ∙ x.queue_same;
  servers_same = y.servers_same ∙ x.servers_same;
  assignments_same = y.assignments_same ∙ x.assignments_same;
  plans_same = y.plans_same ∙ x.plans_same;
  rules_same = y.rules_same ∙ x.rules_same;
}

pub SameFor-order : (v : ℤ) → IsDatabaseOrder (SameFor v)
SameFor-order v = record { same = SameFor-refl v; chain = SameFor-trans v }

pub Apart-order : (v : ℤ) → IsDatabaseOrder (Apart v)
Apart-order v = record {
  same = λ db. record { sound = λ h. h; others = λ h. SameFor-refl v db };
  chain = λ a b c p q. record {
    sound = λ h. q.sound (p.sound h);
    others = λ h. SameFor-trans v a b c (p.others h) (q.others (p.sound h));
  };
}

pub Apart-both :
    (v : ℤ) {A : Type 0} (m : H A) → Runs Sounder m → Runs (SameFor v) m → Runs (Apart v) m
Apart-both v m h k = record {
  at = λ s. record {
    kept = record { sound = (h.at s).kept.sound; others = λ _. (k.at s).kept };
    sessions_same = (k.at s).sessions_same;
    admin_same = (k.at s).admin_same;
  };
}

pub Apart-steps :
    (v : ℤ) {A : Type 0} (m : M A)
    → Steps (On Sounder) m
    → Steps (On (SameFor v)) m
    → Steps (On (Apart v)) m
Apart-steps v m h k = record {
  at = λ w. record { kept = record { sound = (h.at w).kept.sound; others = λ _. (k.at w).kept } };
}

-- A test for one user fails for another.
pub other_user : (id v x : ℤ) → eqb_ℤ id v ≡ false → eqb_ℤ x id ≡ true → eqb_ℤ x v ≡ false
other_user id v x h k = ground (arith, h, (eqb_ℤ_iff x id).0 k)

pub selects-event :
    (id : ℤ) (b : Bool) (e : MailEvent)
    → is_positive id ≡ true
    → b && Events.of_user id e ≡ true
    → eqb_ℤ e.user_id id ≡ true
selects-event id b e h k = ground (arith, h, k)

pub selects-item :
    (id : ℤ) (b : Bool) (q : QueueItem)
    → is_positive id ≡ true
    → is_pending q.status && (b && Queue.of_user id q) ≡ true
    → eqb_ℤ q.user_id id ≡ true
selects-item id b q h k = ground (arith, h, k)
