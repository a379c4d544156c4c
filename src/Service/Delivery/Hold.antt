-- ===== src/Service/Delivery/Hold.antt =====
-- What the answer of `holdIfLimited` says about the recorded mail.
pub mod Sound
use smmail.Prelude.{
  ℕ, ◌-◌, ◌*◌, ◌/◌, ◌≤◌, ◌<◌, ◌≡◌, refl, ◌≢◌, ◌∙◌, ap, sym, inl, inr, Bool, true, false, Bytes,
  is_empty, leb_ℤ, ltb_ℤ, ℤ, pos, pos_part, is_positive, List, [], ◌∷◌, Option, none, some, arith,
  All, Bool-cases, if◌then◌else◌, eqb_ℤ, find,
}
use smmail.Models.{MailEvent, QueueItem, User}
use smmail.Runtime.{
  Env, World, M, Result, ok, tick, pure, attempt, ◌>>=◌, ◌>>◌, query, query_row, nanoseconds,
  time_now,
}
use smmail.Runtime.Effects.{bind-eq_ok, query_row-eq_ok}
use smmail.Repo.Users
use smmail.Repo.Domains
use smmail.Repo.Domains.{is_rule}
use smmail.Models.Database.{Database}
use smmail.Repo.Events
use smmail.Repo.Events.{sent_since, last_of}
use smmail.Service.Send.{extract_domain}
use smmail.Service.Delivery.{
  throttled_by_user, throttled_by_domain, hold_by_domain, hold_at, rule_limits, waits,
  throttle_wait, defer_with_reason, domain_limits, throttled, limited, hold_if_limited,
  limit_checks, LimitCheck,
}
use smmail.Service.Delivery.Quiet.{Quiet, Quiet-order, events}
use smmail.Service.Delivery.Quiet.Calls.{get_by_id-Quiet}
use smmail.Service.Delivery.Quiet.Worker.{
  hold_at-Quiet, throttled_by_user-Quiet, throttled_by_domain-Quiet, domain_limits-Quiet,
}

-- There is room for one more mail under a limit, if the limit is on.
abbrev pub Room : ℤ → ℕ → List MailEvent → LimitCheck → Type 0
Room user_id now es c =
    is_positive c.limit ≡ true
    → sent_since user_id c.domain ((now - c.window) / nanoseconds) es < pos_part c.limit

-- The wait of a throttle, if it is on, is over: the last mail was recorded at `t`.
abbrev pub Clear : ℤ → ℕ → Option ℕ → Type 0
Clear ms now last =
    is_positive ms ≡ true
    → (t : ℕ) → last ≡ some t
    → ltb_ℤ (pos 0) (throttle_wait ms now (t * nanoseconds)) ≡ false

module _ (env : Env) where
  -- A branch that answers `true` does not answer `false`.
  bind_true : (m : M (Unit {0})) (w : World) → ((m >> pure true) w).0 ≢ ok false
  unfolding ◌>>=◌
  bind_true m w h = ground arith

  full : (c : ℤ) (n : ℕ) → is_positive c ≡ true → leb_ℤ c (pos n) ≡ false → n < pos_part c
  full c n p q = ground arith

  limited-Room :
      (item : QueueItem) (now : ℕ) (cs : List LimitCheck) (w : World)
      → (limited env item now cs w).0 ≡ ok false
      → All (Room item.user_id now (events w)) cs
  unfolding limited ◌>>=◌ Events.count_sent_since query
  limited-Room item now [] w h = tt
  limited-Room item now (c ∷ rest) w h = ground (
    arith,
    limited-Room item now rest w,
    limited-Room item now rest (tick w),
    bind_true (defer_with_reason env item c.reason (pos c.window)) (tick w),
    full c.limit (sent_since item.user_id c.domain ((now - c.window) / nanoseconds) (events w)),
  )

  waits-Clear :
      (item : QueueItem) (ms : ℤ) (reason : Bytes) (now t : ℕ) (w : World)
      → (waits env item ms reason now (some (t * nanoseconds)) w).0 ≡ ok false
      → ltb_ℤ (pos 0) (throttle_wait ms now (t * nanoseconds)) ≡ false
  unfolding waits
  waits-Clear item ms reason now t w h =
      elim (Bool-cases (ltb_ℤ (pos 0) (throttle_wait ms now (t * nanoseconds)))) [
        | inl e ↦ absurd (
            bind_true (defer_with_reason env item reason (throttle_wait ms now (t * nanoseconds))) w
              (rw e at h))
        | inr e ↦ e
      ]

  throttled-Clear :
      (item : QueueItem) (ms : ℤ) (domain reason : Bytes) (now : ℕ) (w : World)
      → (throttled env item ms domain reason now w).0 ≡ ok false
      → Clear ms now (last_of item.user_id domain (events w))
  unfolding throttled ◌>>=◌ Events.last_sent_at query
  throttled-Clear item ms domain reason now w h p t e =
      ground (arith, waits-Clear item ms reason now t (tick w))

-- The limit and the throttle that the table has for a recipient's domain.
abbrev pub rule_at : ℤ → Bytes → Database → ℤ × ℤ
rule_at user_id domain db =
    if is_empty domain
    then (pos 0, pos 0)
    else elim (find (is_rule user_id domain) db.domain_throttles.rows) [
      | none ↦ (pos 0, pos 0)
      | some rule ↦ (rule.limit_per_hour, rule.throttle_ms)
    ]

-- What `holdIfLimited` has checked when it lets an item pass.
pub record Passes (env : Env) (item : QueueItem) (w w' : World) : Type 0 where
  pub user : User
  pub found : find (λ u. eqb_ℤ u.id item.user_id) w.db.users.rows ≡ some user
  pub at : ℕ
  pub after_start : w.ticks ≤ at
  pub before_end : at ≤ w'.ticks
  pub user_clear : Clear user.throttle_ms (env.clock at) (last_of item.user_id [] (events w))
  pub domain_clear :
      is_empty (extract_domain item.rcpt_to) ≡ false
      → Clear
          (rule_at item.user_id (extract_domain item.rcpt_to) w.db).1
          (env.clock at)
          (last_of item.user_id (extract_domain item.rcpt_to) (events w))
  pub room : All (Room item.user_id (env.clock at) (events w)) (
      limit_checks user
        (extract_domain item.rcpt_to)
        (rule_at item.user_id (extract_domain item.rcpt_to) w.db).0)
