-- ===== src/Service/Delivery/Quiet/Worker.antt =====
-- The parts of the worker that record no sent mail.
use smmail.Prelude.{ℕ, ◌-◌, refl, Bytes, leb_ℤ, ℤ, pos, List, [], ◌∷◌, Option, none, some}
use smmail.Models.{DomainThrottle, QueueItem, UpstreamSmtp, User}
use smmail.Runtime.{Env, no_rows, message, Result, ok, err}
use smmail.Runtime.Effects.{Steps, Steps-attempt, Steps-if}
use smmail.Service.Delivery.{
  defer_with_reason, domain_limits, throttled, limited, hold_if_limited, try_accounts, deliver,
  LimitCheck, rule_limits, waits, throttled_by_user, throttled_by_domain, hold_by_domain, hold_at,
}
use smmail.Service.Delivery.Quiet.{Quiet, Quiet-pure, Quiet-bind}
use smmail.Service.Delivery.Quiet.Calls.{
  count_sent_since-Quiet, defer-Quiet, deliver_by_account-Quiet, create-Quiet, quiet_rules,
}

module _ (env : Env) where
  pub defer_with_reason-Quiet :
      (item : QueueItem) (reason : Bytes) (wait : ℤ)
      → Steps Quiet (defer_with_reason env item reason wait)
  unfolding defer_with_reason
  defer_with_reason-Quiet item reason wait =
      Quiet-bind _ _ (defer-Quiet env item.id reason wait)
        (λ _. Quiet-bind _ _ (Steps-attempt _ (create-Quiet env _ refl)) (λ _. Quiet-pure tt))

  rule_limits-Quiet : (found : Result DomainThrottle) → Steps Quiet (rule_limits env found)
  unfolding rule_limits
  rule_limits-Quiet (ok rule) = search quiet_rules
  rule_limits-Quiet (err no_rows) = search quiet_rules
  rule_limits-Quiet (err (message m)) = search quiet_rules

  pub domain_limits-Quiet : (id : ℤ) (domain : Bytes) → Steps Quiet (domain_limits env id domain)
  unfolding domain_limits
  domain_limits-Quiet id domain = search (quiet_rules, rule_limits-Quiet)

  waits-Quiet :
      (item : QueueItem) (ms : ℤ) (reason : Bytes) (now : ℕ) (last : Option ℕ)
      → Steps Quiet (waits env item ms reason now last)
  unfolding waits
  waits-Quiet item ms reason now none = search quiet_rules
  waits-Quiet item ms reason now (some last) = search (quiet_rules, defer_with_reason-Quiet)

  pub throttled-Quiet :
      (item : QueueItem) (ms : ℤ) (domain reason : Bytes) (now : ℕ)
      → Steps Quiet (throttled env item ms domain reason now)
  unfolding throttled
  throttled-Quiet item ms domain reason now = search (quiet_rules, waits-Quiet)

  pub throttled_by_user-Quiet :
      (item : QueueItem) (ms : ℤ) (now : ℕ) → Steps Quiet (throttled_by_user env item ms now)
  unfolding throttled_by_user
  throttled_by_user-Quiet item ms now = throttled-Quiet item ms _ _ now

  pub throttled_by_domain-Quiet :
      (item : QueueItem) (ms : ℤ) (domain : Bytes) (now : ℕ)
      → Steps Quiet (throttled_by_domain env item ms domain now)
  unfolding throttled_by_domain
  throttled_by_domain-Quiet item ms domain now = search (quiet_rules, throttled-Quiet)

  pub limited-Quiet :
      (item : QueueItem) (now : ℕ) (cs : List LimitCheck) → Steps Quiet (limited env item now cs)
  unfolding limited
  limited-Quiet item now [] = search quiet_rules
  limited-Quiet item now (c ∷ rest) =
      let rest_Quiet = limited-Quiet item now rest in
      Steps-if _ _ _
        (Quiet-bind _ _ (count_sent_since-Quiet env item.user_id c.domain (now - c.window)) (λ sent.
          Steps-if (leb_ℤ c.limit (pos sent)) _ _ (search (quiet_rules, defer_with_reason-Quiet))
            rest_Quiet))
        rest_Quiet

  pub hold_at-Quiet :
      (item : QueueItem) (user : User) (domain : Bytes) (rule : ℤ × ℤ) (now : ℕ)
      → Steps Quiet (hold_at env item user domain rule now)
  unfolding hold_at hold_by_domain
  hold_at-Quiet item user domain rule now =
      search (quiet_rules, throttled_by_user-Quiet, throttled_by_domain-Quiet, limited-Quiet) depth
        8

  -- Holding an item records no sent mail.
  pub hold_if_limited-Quiet : (item : QueueItem) → Steps Quiet (hold_if_limited env item)
  unfolding hold_if_limited
  hold_if_limited-Quiet item = search (quiet_rules, domain_limits-Quiet, hold_at-Quiet) depth 8

  try_accounts-Quiet :
      (item : QueueItem) (failure : Bytes) (accs : List UpstreamSmtp)
      → Steps Quiet (try_accounts env item failure accs)
  unfolding try_accounts
  try_accounts-Quiet item failure [] = search quiet_rules
  try_accounts-Quiet item failure (acc ∷ rest) =
      Quiet-bind _ _ (Steps-attempt _ (deliver_by_account-Quiet env item acc))
        (elim [ ok _ ↦ Quiet-pure _ | err _ ↦ try_accounts-Quiet item failure rest ])

  -- Nor does the delivery itself: the event is recorded behind it.
  pub deliver-Quiet : (item : QueueItem) → Steps Quiet (deliver env item)
  unfolding deliver
  deliver-Quiet item = search (quiet_rules, try_accounts-Quiet) depth 8
