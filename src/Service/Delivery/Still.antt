-- ===== src/Service/Delivery/Still.antt =====
-- The parts of the worker that leave the queue alone.
use smmail.Prelude.{ℕ, ◌≡◌, refl, ◌∙◌, Bytes, ℤ, List, [], ◌∷◌, inl, inr, Option}
use smmail.Models.{MailEvent, QueueItem, UpstreamSmtp, DomainThrottle}
use smmail.Models.Database.{Database}
use smmail.Runtime.{
  Env, World, M, Error, no_rows, message, Result, ok, err, timestamp, pure, fail, exec, query,
  query_row, time_now, send_mail, ◌>>=◌,
}
use smmail.Runtime.Effects.{
  Steps, IsPreorder, Steps-pure, Steps-fail, Steps-bind, Steps-if, Steps-attempt, Steps-time_now,
  exec-cases, query-tick, query_row-tick,
}
use smmail.Repo.Users
use smmail.Repo.Domains
use smmail.Repo.Events
use smmail.Repo.Smtps
use smmail.Service.Delivery.{
  rule_limits, domain_limits, next_rr, deliver_by_account, try_accounts, deliver,
}

-- The rows of the queue.
abbrev pub items : World → List QueueItem
items w = w.db.outbound_queue.rows

-- A run changes no row of the queue.
pub record Still (w w' : World) : Type 0 where
  pub same : items w' ≡ items w

pub Still-order : IsPreorder Still
Still-order = record {
  same = λ w. record { same = refl };
  chain = λ u v w p q. record { same = q.same ∙ p.same };
}

pub Still-pure : {A : Type 0} (a : A) → Steps Still (pure a)
Still-pure a = Steps-pure Still-order a

pub Still-fail : {A : Type 0} (e : Error) → Steps Still (fail {A = A} e)
Still-fail e = Steps-fail Still-order e

pub Still-bind :
    {A B : Type 0} (m : M A) (f : A → M B)
    → Steps Still m
    → ((a : A) → Steps Still (f a))
    → Steps Still (m >>= f)
Still-bind m f h k = Steps-bind Still-order m f h k

pub Still-time_now : (env : Env) → Steps Still (time_now env)
Still-time_now env = Steps-time_now Still-order env

module _ (env : Env) where
  query-Still : {A : Type 0} (f : ℕ → Database → A) → Steps Still (query env f)
  query-Still f = record { at = λ w. rw (query-tick env f w) (record { same = refl }) }

  query_row-Still : {A : Type 0} (f : ℕ → Database → Option A) → Steps Still (query_row env f)
  query_row-Still f = record { at = λ w. rw (query_row-tick env f w) (record { same = refl }) }

  pub get_by_id-Still : (id : ℤ) → Steps Still (Users.get_by_id env id)
  unfolding Users.get_by_id
  get_by_id-Still id = query_row-Still _

  pub get-Still : (id : ℤ) (domain : Bytes) → Steps Still (Domains.get env id domain)
  unfolding Domains.get
  get-Still id domain = query_row-Still _

  pub list_assigned-Still : (id : ℤ) → Steps Still (Smtps.list_assigned env id)
  unfolding Smtps.list_assigned
  list_assigned-Still id = query-Still _

  pub last_sent_at-Still :
      (id : ℤ) (domain : Bytes) → Steps Still (Events.last_sent_at env id domain)
  unfolding Events.last_sent_at
  last_sent_at-Still id domain = query-Still _

  pub count_sent_since-Still :
      (id : ℤ) (domain : Bytes) (since : ℕ)
      → Steps Still (Events.count_sent_since env id domain since)
  unfolding Events.count_sent_since
  count_sent_since-Still id domain since = query-Still _

  exec-Still :
      (f : ℕ → Database → Database)
      → ((now : ℕ) (db : Database) → (f now db).outbound_queue.rows ≡ db.outbound_queue.rows)
      → Steps Still (exec env f)
  exec-Still f h = record {
    at = λ w. elim (exec-cases env f w) [
      | inl e ↦ rw e (record { same = refl })
      | inr e ↦ rw e (record { same = h (timestamp env w.ticks) w.db })
    ];
  }

  pub create-Still : (e : MailEvent) → Steps Still (Events.create env e)
  unfolding Events.create
  create-Still e = exec-Still _ (λ now db. refl)

  pub next_rr-Still : (id : ℤ) (n : ℕ) → Steps Still (next_rr id n)
  unfolding next_rr
  next_rr-Still id n = record { at = λ w. record { same = refl } }

  pub deliver_by_account-Still :
      (item : QueueItem) (acc : UpstreamSmtp) → Steps Still (deliver_by_account env item acc)
  unfolding deliver_by_account send_mail
  deliver_by_account-Still item acc = record { at = λ w. record { same = refl } }

  pub ruleset still_rules = (
    Still-pure, Still-fail, Still-bind, Still-time_now, Steps-attempt, Steps-if, get_by_id-Still,
    get-Still, list_assigned-Still, last_sent_at-Still, count_sent_since-Still, create-Still,
    next_rr-Still, deliver_by_account-Still,
  )

  rule_limits-Still : (found : Result DomainThrottle) → Steps Still (rule_limits env found)
  unfolding rule_limits
  rule_limits-Still (ok rule) = search still_rules
  rule_limits-Still (err no_rows) = search still_rules
  rule_limits-Still (err (message m)) = search still_rules

  pub domain_limits-Still : (id : ℤ) (domain : Bytes) → Steps Still (domain_limits env id domain)
  unfolding domain_limits
  domain_limits-Still id domain = search (still_rules, rule_limits-Still)

  try_accounts-Still :
      (item : QueueItem) (failure : Bytes) (accs : List UpstreamSmtp)
      → Steps Still (try_accounts env item failure accs)
  unfolding try_accounts
  try_accounts-Still item failure [] = search still_rules
  try_accounts-Still item failure (acc ∷ rest) =
      Still-bind _ _ (Steps-attempt _ (deliver_by_account-Still item acc))
        (elim [ ok _ ↦ Still-pure _ | err _ ↦ try_accounts-Still item failure rest ])

  pub deliver-Still : (item : QueueItem) → Steps Still (deliver env item)
  unfolding deliver
  deliver-Still item = search (still_rules, try_accounts-Still) depth 8
