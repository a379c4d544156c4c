-- ===== src/Service/Delivery/Kept.antt =====
-- What the worker keeps, from what its statements keep.
use smmail.Prelude.{
  ℕ, ◌-◌, Bool, true, false, Bytes, leb_ℤ, ℤ, pos, List, [], ◌∷◌, Option, none, some,
}
use smmail.Models.{DomainThrottle, QueueItem, UpstreamSmtp, User}
use smmail.Models.Database.{Database}
use smmail.Runtime.{Env, no_rows, message, Result, ok, err}
use smmail.Runtime.Effects.{Steps, Steps-attempt, Steps-if}
use smmail.Runtime.Kept.{
  IsDatabaseOrder, On, On-pure, On-bind, On-query, On-query_row, On-send_mail,
}
use smmail.Repo.Users
use smmail.Repo.Domains
use smmail.Repo.Events
use smmail.Repo.Queue
use smmail.Repo.Smtps
use smmail.Service.Send.Kept.{MailWrites, on_rules}
use smmail.Service.Delivery.{
  defer_with_reason, domain_limits, throttled, limited, hold_if_limited, try_accounts, deliver,
  LimitCheck, rule_limits, waits, throttled_by_user, throttled_by_domain, hold_by_domain, hold_at,
  deliver_by_account, next_rr, after_delivery, after_hold, process_item, process_items,
  process_batch, process,
}

module _ {D : Database → Database → Type 0} (order : IsDatabaseOrder D) (env : Env)
    (laws : MailWrites D env) where
  defer_with_reason-On :
      (item : QueueItem) (reason : Bytes) (wait : ℤ)
      → Steps (On D) (defer_with_reason env item reason wait)
  unfolding defer_with_reason
  defer_with_reason-On item reason wait = search (on_rules, laws.defer, laws.create) depth 8

  rule_limits-On : (found : Result DomainThrottle) → Steps (On D) (rule_limits env found)
  unfolding rule_limits
  rule_limits-On (ok rule) = search on_rules
  rule_limits-On (err no_rows) = search on_rules
  rule_limits-On (err (message m)) = search on_rules

  user-On : (id : ℤ) → Steps (On D) (Users.get_by_id env id)
  unfolding Users.get_by_id
  user-On id = On-query_row order env _

  rule-On : (id : ℤ) (domain : Bytes) → Steps (On D) (Domains.get env id domain)
  unfolding Domains.get
  rule-On id domain = On-query_row order env _

  assigned-On : (id : ℤ) → Steps (On D) (Smtps.list_assigned env id)
  unfolding Smtps.list_assigned
  assigned-On id = On-query order env _

  batch-On : (n : ℕ) → Steps (On D) (Queue.dequeue_batch env n)
  unfolding Queue.dequeue_batch
  batch-On n = On-query order env _

  last_sent-On : (id : ℤ) (domain : Bytes) → Steps (On D) (Events.last_sent_at env id domain)
  unfolding Events.last_sent_at
  last_sent-On id domain = On-query order env _

  sent_since-On :
      (id : ℤ) (domain : Bytes) (since : ℕ)
      → Steps (On D) (Events.count_sent_since env id domain since)
  unfolding Events.count_sent_since
  sent_since-On id domain since = On-query order env _

  domain_limits-On : (id : ℤ) (domain : Bytes) → Steps (On D) (domain_limits env id domain)
  unfolding domain_limits
  domain_limits-On id domain = search (on_rules, rule-On, rule_limits-On) depth 8

  waits-On :
      (item : QueueItem) (ms : ℤ) (reason : Bytes) (now : ℕ) (last : Option ℕ)
      → Steps (On D) (waits env item ms reason now last)
  unfolding waits
  waits-On item ms reason now none = search on_rules
  waits-On item ms reason now (some last) = search (on_rules, defer_with_reason-On) depth 8

  throttled-On :
      (item : QueueItem) (ms : ℤ) (domain reason : Bytes) (now : ℕ)
      → Steps (On D) (throttled env item ms domain reason now)
  unfolding throttled
  throttled-On item ms domain reason now = search (on_rules, waits-On, last_sent-On) depth 8

  by_user-On :
      (item : QueueItem) (ms : ℤ) (now : ℕ) → Steps (On D) (throttled_by_user env item ms now)
  unfolding throttled_by_user
  by_user-On item ms now = throttled-On item ms _ _ now

  by_domain-On :
      (item : QueueItem) (ms : ℤ) (domain : Bytes) (now : ℕ)
      → Steps (On D) (throttled_by_domain env item ms domain now)
  unfolding throttled_by_domain
  by_domain-On item ms domain now = search (on_rules, throttled-On) depth 8

  limited-On :
      (item : QueueItem) (now : ℕ) (cs : List LimitCheck) → Steps (On D) (limited env item now cs)
  unfolding limited
  limited-On item now [] = search on_rules
  limited-On item now (c ∷ rest) =
      let rest_On = limited-On item now rest in
      Steps-if _ _ _
        (On-bind order _ _ (sent_since-On item.user_id c.domain (now - c.window)) (λ sent.
          Steps-if (leb_ℤ c.limit (pos sent)) _ _ (search (on_rules, defer_with_reason-On) depth 8)
            rest_On))
        rest_On

  hold_at-On :
      (item : QueueItem) (user : User) (domain : Bytes) (rule : ℤ × ℤ) (now : ℕ)
      → Steps (On D) (hold_at env item user domain rule now)
  unfolding hold_at hold_by_domain
  hold_at-On item user domain rule now =
      search (on_rules, by_user-On, by_domain-On, limited-On) depth 8

  hold_if_limited-On : (item : QueueItem) → Steps (On D) (hold_if_limited env item)
  unfolding hold_if_limited
  hold_if_limited-On item = search (on_rules, user-On, domain_limits-On, hold_at-On) depth 8

  by_account-On :
      (item : QueueItem) (acc : UpstreamSmtp) → Steps (On D) (deliver_by_account env item acc)
  unfolding deliver_by_account
  by_account-On item acc = On-send_mail order env _

  next_rr-On : (id : ℤ) (n : ℕ) → Steps (On D) (next_rr id n)
  unfolding next_rr
  next_rr-On id n = record { at = λ w. record { kept = order.same w.db } }

  try_accounts-On :
      (item : QueueItem) (failure : Bytes) (accs : List UpstreamSmtp)
      → Steps (On D) (try_accounts env item failure accs)
  unfolding try_accounts
  try_accounts-On item failure [] = search on_rules
  try_accounts-On item failure (acc ∷ rest) =
      On-bind order _ _ (Steps-attempt _ (by_account-On item acc))
        (elim [ ok _ ↦ On-pure order _ | err _ ↦ try_accounts-On item failure rest ])

  deliver-On : (item : QueueItem) → Steps (On D) (deliver env item)
  unfolding deliver
  deliver-On item = search (on_rules, user-On, assigned-On, next_rr-On, try_accounts-On) depth 8

  after_delivery-On :
      (item : QueueItem) (r : Result (Unit {0})) → Steps (On D) (after_delivery env item r)
  unfolding after_delivery
  after_delivery-On item (ok x) = search (on_rules, laws.mark_sent, laws.create) depth 8
  after_delivery-On item (err e) =
      search (on_rules, laws.mark_failed, laws.mark_retry, laws.create) depth 10

  after_hold-On : (item : QueueItem) (r : Result Bool) → Steps (On D) (after_hold env item r)
  unfolding after_hold
  after_hold-On item (ok true) = search on_rules
  after_hold-On item (ok false) = search (on_rules, deliver-On, after_delivery-On) depth 8
  after_hold-On item (err e) = search (on_rules, laws.mark_retry) depth 8

  process_item-On : (item : QueueItem) → Steps (On D) (process_item env item)
  unfolding process_item
  process_item-On item = search (on_rules, hold_if_limited-On, after_hold-On) depth 8

  process_items-On : (items : List QueueItem) → Steps (On D) (process_items env items)
  unfolding process_items
  process_items-On [] = search on_rules
  process_items-On (item ∷ rest) =
      On-bind order _ _ (process_item-On item) (λ _. process_items-On rest)

  process_batch-On : (r : Result (List QueueItem)) → Steps (On D) (process_batch env r)
  unfolding process_batch
  process_batch-On (ok items) = process_items-On items
  process_batch-On (err e) = search on_rules

  -- A round of the worker.
  pub process-On : Steps (On D) (process env)
  unfolding process
  process-On = search (on_rules, batch-On, process_batch-On) depth 8
