-- ===== src/Service/Delivery/Limits.antt =====
-- internal/service/delivery.go: the limits and throttles that hold an item.
use smmail.Prelude.{
  ℕ, ◌-◌, ◌*◌, ◌^◌, Bool, true, false, not, ◌&&◌, Bytes, codes, is_empty, decimal, ℤ, pos, negsuc,
  is_positive, leb_ℤ, ltb_ℤ, scale, sub_ℕ, ◌-ℤ◌, wrap64, List, [], ◌∷◌, ◌++◌, Option, none, some,
  if◌then◌else◌,
}
use smmail.Models.{User, DomainThrottle, MailEvent, EventStatus, QueueItem}
use smmail.Runtime.{
  Env, M, no_rows, message, Result, ok, err, nanoseconds, time_now, pure, fail, attempt, ◌>>=◌,
  ◌>>◌,
}
use smmail.Repo.Users
use smmail.Repo.Domains
use smmail.Repo.Events
use smmail.Repo.Queue
use smmail.Service.Send.{extract_domain, new_event}

-- `limitCheck`; a window is in nanoseconds.
pub record LimitCheck : Type 0 where
  pub limit : ℤ
  pub window : ℕ
  pub domain : Bytes
  pub reason : Bytes

-- `t.Sub(u)`: the difference of two times, cut to the range of a duration.
abbrev pub sub_time : ℕ → ℕ → ℤ
sub_time t u =
    let d = sub_ℕ t u in
    if ltb_ℤ (pos (2 ^ 63 - 1)) d
    then pos (2 ^ 63 - 1)
    else if ltb_ℤ d (negsuc (2 ^ 63 - 1))
    then negsuc (2 ^ 63 - 1)
    else d

-- `time.Duration(ms)*time.Millisecond - now.Sub(last)`, in 64 bits.
unfoldable pub throttle_wait : ℤ → ℕ → ℕ → ℤ
throttle_wait ms now last = wrap64 (wrap64 (scale 1000000 ms) -ℤ sub_time now last)

-- The windows of the limits.
abbrev pub seconds : ℕ → ℕ
seconds n = n * nanoseconds

unfoldable pub user_checks : User → List LimitCheck
user_checks user =
    record {
      limit = user.limit_per_sec;
      window = seconds 1;
      domain = [];
      reason = codes "user per-second limit reached";
    }
    ∷ record {
      limit = user.limit_per_min;
      window = seconds 60;
      domain = [];
      reason = codes "user per-minute limit reached";
    }
    ∷ record {
      limit = user.limit_per_hour;
      window = seconds 3600;
      domain = [];
      reason = codes "user per-hour limit reached";
    }
    ∷ record {
      limit = user.limit_per_day;
      window = seconds 86400;
      domain = [];
      reason = codes "user per-day limit reached";
    }
    ∷ []

abbrev pub domain_check : Bytes → ℤ → LimitCheck
domain_check domain domain_per_hour = record {
  limit = domain_per_hour;
  window = seconds 3600;
  domain = domain;
  reason = codes "domain per-hour limit reached for " ++ domain;
}

unfoldable pub limit_checks : User → Bytes → ℤ → List LimitCheck
limit_checks user domain domain_per_hour =
    user_checks user
    ++ (if not (is_empty domain) && is_positive domain_per_hour
        then domain_check domain domain_per_hour ∷ []
        else [])

-- The event of an item that is held.
abbrev pub held_event : QueueItem → Bytes → MailEvent
held_event item reason =
    new_event item.user_id item.mail_from item.rcpt_to (extract_domain item.rcpt_to)
      EventStatus.queued (codes "held: " ++ reason)

module _ (env : Env) where
  unfoldable pub defer_with_reason : QueueItem → Bytes → ℤ → M (Unit {0})
  defer_with_reason item reason wait = do
    Queue.defer env item.id reason wait
    attempt (Events.create env (held_event item reason))
    pure tt

  -- The per-hour limit and the throttle of the recipient's domain, 0 where there is no rule.
  unfoldable pub rule_limits : Result DomainThrottle → M (ℤ × ℤ)
  rule_limits (ok rule) = pure (rule.limit_per_hour, rule.throttle_ms)
  rule_limits (err no_rows) = pure (pos 0, pos 0)
  rule_limits (err (message m)) = fail (message m)

  unfoldable pub domain_limits : ℤ → Bytes → M (ℤ × ℤ)
  unfolding rule_limits
  domain_limits user_id domain =
      if is_empty domain
      then pure (pos 0, pos 0)
      else (do found ← attempt (Domains.get env user_id domain); rule_limits found)

  -- One of the two throttle blocks; `true` if it deferred the item.
  unfoldable pub waits : QueueItem → ℤ → Bytes → ℕ → Option ℕ → M Bool
  waits item ms reason now none = pure false
  waits item ms reason now (some last) =
      let wait = throttle_wait ms now last in
      if ltb_ℤ (pos 0) wait then (do defer_with_reason item reason wait; pure true) else pure false

  unfoldable pub throttled : QueueItem → ℤ → Bytes → Bytes → ℕ → M Bool
  unfolding waits
  throttled item ms domain reason now =
      if is_positive ms
      then (do last ← Events.last_sent_at env item.user_id domain; waits item ms reason now last)
      else pure false

  -- `for _, c := range checks`.
  unfoldable pub limited : QueueItem → ℕ → List LimitCheck → M Bool
  limited item now [] = pure false
  limited item now (c ∷ rest) =
      let next = limited item now rest in
      if is_positive c.limit
      then (do
        sent ← Events.count_sent_since env item.user_id c.domain (now - c.window)
        if leb_ℤ c.limit (pos sent)
            then (do defer_with_reason item c.reason (pos c.window); pure true)
            else next)
      else next

  -- The two throttle blocks.
  unfoldable pub throttled_by_user : QueueItem → ℤ → ℕ → M Bool
  throttled_by_user item ms now =
      throttled item ms [] (codes "user throttle active (" ++ decimal ms ++ codes "ms)") now

  unfoldable pub throttled_by_domain : QueueItem → ℤ → Bytes → ℕ → M Bool
  throttled_by_domain item ms domain now =
      if is_empty domain
      then pure false
      else throttled item ms domain
          (codes "domain throttle active (" ++ decimal ms ++ codes "ms) for " ++ domain) now

  -- What follows the queries, at time `now`.
  unfoldable pub hold_by_domain : QueueItem → User → Bytes → ℤ × ℤ → ℕ → M Bool
  hold_by_domain item user domain (domain_per_hour, domain_throttle_ms) now = do
    by_domain ← throttled_by_domain item domain_throttle_ms domain now
    if by_domain then pure true else limited item now (limit_checks user domain domain_per_hour)

  unfoldable pub hold_at : QueueItem → User → Bytes → ℤ × ℤ → ℕ → M Bool
  hold_at item user domain rule now = do
    by_user ← throttled_by_user item user.throttle_ms now
    if by_user then pure true else hold_by_domain item user domain rule now

  unfoldable pub hold_if_limited : QueueItem → M Bool
  hold_if_limited item = do
    user ← Users.get_by_id env item.user_id
    rule ← domain_limits item.user_id (extract_domain item.rcpt_to)
    now ← time_now env
    hold_at item user (extract_domain item.rcpt_to) rule now
