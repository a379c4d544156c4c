-- ===== src/Service/Delivery/Silent.antt =====
-- The parts of the worker that send nothing, and leave the servers and their assignments.
use smmail.Prelude.{
  ℕ, ◌-◌, ◌≡◌, refl, ◌∙◌, Bytes, leb_ℤ, ℤ, pos, List, [], ◌∷◌, Option, none, some, inl, inr,
}
use smmail.Models.{DomainThrottle, MailEvent, QueueItem, User}
use smmail.Models.Database.{Database}
use smmail.Runtime.{
  Env, World, M, Error, no_rows, message, Result, ok, err, tick, timestamp, exec, query, query_row,
  time_now, pure, fail, ◌>>=◌,
}
use smmail.Runtime.Effects.{
  Steps, IsPreorder, Steps-pure, Steps-fail, Steps-bind, Steps-if, Steps-attempt, Steps-time_now,
  exec-cases, query-tick, query_row-tick,
}
use smmail.Repo.Users
use smmail.Repo.Domains
use smmail.Repo.Events
use smmail.Repo.Queue
use smmail.Service.Delivery.{
  LimitCheck, rule_limits, domain_limits, waits, throttled, throttled_by_user, throttled_by_domain,
  limited, hold_by_domain, hold_at, hold_if_limited, defer_with_reason, after_delivery, next_rr,
}

pub record Silent (w w' : World) : Type 0 where
  pub nothing_sent : w'.transmissions ≡ w.transmissions
  pub servers_same : w'.db.upstream_smtps.rows ≡ w.db.upstream_smtps.rows
  pub assignments_same : w'.db.user_smtp_assignments.rows ≡ w.db.user_smtp_assignments.rows

pub Silent-order : IsPreorder Silent
Silent-order = record {
  same = λ w. record { nothing_sent = refl; servers_same = refl; assignments_same = refl };
  chain = λ u v w p q. record {
    nothing_sent = q.nothing_sent ∙ p.nothing_sent;
    servers_same = q.servers_same ∙ p.servers_same;
    assignments_same = q.assignments_same ∙ p.assignments_same;
  };
}

pub Silent-pure : {A : Type 0} (a : A) → Steps Silent (pure a)
Silent-pure a = Steps-pure Silent-order a

pub Silent-fail : {A : Type 0} (e : Error) → Steps Silent (fail {A = A} e)
Silent-fail e = Steps-fail Silent-order e

Silent-bind :
    {A B : Type 0} (m : M A) (f : A → M B)
    → Steps Silent m
    → ((a : A) → Steps Silent (f a))
    → Steps Silent (m >>= f)
Silent-bind m f h k = Steps-bind Silent-order m f h k

Silent-time_now : (env : Env) → Steps Silent (time_now env)
Silent-time_now env = Steps-time_now Silent-order env

pub Silent-tick : (w : World) → Silent w (tick w)
Silent-tick w = record { nothing_sent = refl; servers_same = refl; assignments_same = refl }

module _ (env : Env) where
  pub query-Silent : {A : Type 0} (f : ℕ → Database → A) → Steps Silent (query env f)
  query-Silent f = record { at = λ w. rw (query-tick env f w) (Silent-tick w) }

  pub query_row-Silent : {A : Type 0} (f : ℕ → Database → Option A) → Steps Silent (query_row env f)
  query_row-Silent f = record { at = λ w. rw (query_row-tick env f w) (Silent-tick w) }

  exec-Silent :
      (f : ℕ → Database → Database)
      → ((now : ℕ) (db : Database) → (f now db).upstream_smtps.rows ≡ db.upstream_smtps.rows)
      → ((now : ℕ) (db : Database)
          → (f now db).user_smtp_assignments.rows ≡ db.user_smtp_assignments.rows)
      → Steps Silent (exec env f)
  exec-Silent f h k = record {
    at = λ w. elim (exec-cases env f w) [
      | inl e ↦ rw e (Silent-tick w)
      | inr e ↦ rw e (record {
        nothing_sent = refl;
        servers_same = h (timestamp env w.ticks) w.db;
        assignments_same = k (timestamp env w.ticks) w.db;
      })
    ];
  }

  pub get_by_id-Silent : (id : ℤ) → Steps Silent (Users.get_by_id env id)
  unfolding Users.get_by_id
  get_by_id-Silent id = query_row-Silent _

  get-Silent : (id : ℤ) (domain : Bytes) → Steps Silent (Domains.get env id domain)
  unfolding Domains.get
  get-Silent id domain = query_row-Silent _

  last_sent_at-Silent : (id : ℤ) (domain : Bytes) → Steps Silent (Events.last_sent_at env id domain)
  unfolding Events.last_sent_at
  last_sent_at-Silent id domain = query-Silent _

  count_sent_since-Silent :
      (id : ℤ) (domain : Bytes) (since : ℕ)
      → Steps Silent (Events.count_sent_since env id domain since)
  unfolding Events.count_sent_since
  count_sent_since-Silent id domain since = query-Silent _

  create-Silent : (e : MailEvent) → Steps Silent (Events.create env e)
  unfolding Events.create
  create-Silent e = exec-Silent _ (λ now db. refl) (λ now db. refl)

  mark_sent-Silent : (id : ℤ) → Steps Silent (Queue.mark_sent env id)
  unfolding Queue.mark_sent
  mark_sent-Silent id = exec-Silent _ (λ now db. refl) (λ now db. refl)

  pub mark_retry-Silent : (id : ℤ) (e : Bytes) → Steps Silent (Queue.mark_retry env id e)
  unfolding Queue.mark_retry
  mark_retry-Silent id e = exec-Silent _ (λ now db. refl) (λ now db. refl)

  mark_failed-Silent : (id : ℤ) (e : Bytes) → Steps Silent (Queue.mark_failed env id e)
  unfolding Queue.mark_failed
  mark_failed-Silent id e = exec-Silent _ (λ now db. refl) (λ now db. refl)

  defer-Silent : (id : ℤ) (e : Bytes) (wait : ℤ) → Steps Silent (Queue.defer env id e wait)
  unfolding Queue.defer
  defer-Silent id e wait = exec-Silent _ (λ now db. refl) (λ now db. refl)

  pub next_rr-Silent : (id : ℤ) (n : ℕ) → Steps Silent (next_rr id n)
  unfolding next_rr
  next_rr-Silent id n = record {
    at = λ w. record { nothing_sent = refl; servers_same = refl; assignments_same = refl };
  }

  ruleset silent_rules = (
    Silent-pure, Silent-fail, Silent-bind, Silent-time_now, Steps-attempt, Steps-if,
    get_by_id-Silent, get-Silent, last_sent_at-Silent, count_sent_since-Silent, create-Silent,
    mark_sent-Silent, mark_retry-Silent, mark_failed-Silent, defer-Silent, next_rr-Silent,
  )

  defer_with_reason-Silent :
      (item : QueueItem) (reason : Bytes) (wait : ℤ)
      → Steps Silent (defer_with_reason env item reason wait)
  unfolding defer_with_reason
  defer_with_reason-Silent item reason wait = search silent_rules depth 8

  rule_limits-Silent : (found : Result DomainThrottle) → Steps Silent (rule_limits env found)
  unfolding rule_limits
  rule_limits-Silent (ok rule) = search silent_rules
  rule_limits-Silent (err no_rows) = search silent_rules
  rule_limits-Silent (err (message m)) = search silent_rules

  domain_limits-Silent : (id : ℤ) (domain : Bytes) → Steps Silent (domain_limits env id domain)
  unfolding domain_limits
  domain_limits-Silent id domain = search (silent_rules, rule_limits-Silent)

  waits-Silent :
      (item : QueueItem) (ms : ℤ) (reason : Bytes) (now : ℕ) (last : Option ℕ)
      → Steps Silent (waits env item ms reason now last)
  unfolding waits
  waits-Silent item ms reason now none = search silent_rules
  waits-Silent item ms reason now (some last) = search (silent_rules, defer_with_reason-Silent)

  throttled-Silent :
      (item : QueueItem) (ms : ℤ) (domain reason : Bytes) (now : ℕ)
      → Steps Silent (throttled env item ms domain reason now)
  unfolding throttled
  throttled-Silent item ms domain reason now = search (silent_rules, waits-Silent)

  throttled_by_user-Silent :
      (item : QueueItem) (ms : ℤ) (now : ℕ) → Steps Silent (throttled_by_user env item ms now)
  unfolding throttled_by_user
  throttled_by_user-Silent item ms now = throttled-Silent item ms _ _ now

  throttled_by_domain-Silent :
      (item : QueueItem) (ms : ℤ) (domain : Bytes) (now : ℕ)
      → Steps Silent (throttled_by_domain env item ms domain now)
  unfolding throttled_by_domain
  throttled_by_domain-Silent item ms domain now = search (silent_rules, throttled-Silent)

  limited-Silent :
      (item : QueueItem) (now : ℕ) (cs : List LimitCheck) → Steps Silent (limited env item now cs)
  unfolding limited
  limited-Silent item now [] = search silent_rules
  limited-Silent item now (c ∷ rest) =
      let rest_Silent = limited-Silent item now rest in
      Steps-if _ _ _
        (Silent-bind _ _ (count_sent_since-Silent item.user_id c.domain (now - c.window)) (λ sent.
          Steps-if (leb_ℤ c.limit (pos sent)) _ _ (search (silent_rules, defer_with_reason-Silent))
            rest_Silent))
        rest_Silent

  hold_at-Silent :
      (item : QueueItem) (user : User) (domain : Bytes) (rule : ℤ × ℤ) (now : ℕ)
      → Steps Silent (hold_at env item user domain rule now)
  unfolding hold_at hold_by_domain
  hold_at-Silent item user domain rule now =
      search (silent_rules, throttled_by_user-Silent, throttled_by_domain-Silent, limited-Silent)
        depth 8

  pub hold_if_limited-Silent : (item : QueueItem) → Steps Silent (hold_if_limited env item)
  unfolding hold_if_limited
  hold_if_limited-Silent item = search (silent_rules, domain_limits-Silent, hold_at-Silent) depth 8

  pub after_delivery-Silent :
      (item : QueueItem) (r : Result (Unit {0})) → Steps Silent (after_delivery env item r)
  unfolding after_delivery
  after_delivery-Silent item (ok done) = search silent_rules depth 10
  after_delivery-Silent item (err e) = search silent_rules depth 10
