-- ===== src/Service/Delivery/Allowed.antt =====
-- What an item has fulfilled that the worker delivers: the limits in seconds, the throttles in
-- milliseconds.
use smmail.Prelude.{
  ℕ, ◌+◌, ◌-◌, ◌*◌, ◌/◌, ◌≤◌, ◌<◌, ◌≡◌, true, false, Bytes, is_empty, ℤ, pos, pos_part, is_positive,
  ltb_ℤ, wrap64, wrap64_pos, scale_ms, ◌-ℤ◌, List, [], Option, some, eqb_ℤ, find, arith, All, ltb,
  Bool-cases, inl, inr,
}
use smmail.Models.{MailEvent, QueueItem, User}
use smmail.Runtime.{Env, World, ok}
use smmail.Repo.Events.{sent_since, last_of}
use smmail.Service.Send.{extract_domain}
use smmail.Service.Delivery.{user_checks, limit_checks, throttle_wait, sub_time, hold_if_limited}
use smmail.Service.Delivery.Quiet.{events}
use smmail.Service.Delivery.Hold.{Room, Clear, rule_at}
use smmail.Service.Delivery.Hold.Sound.{hold_if_limited-Passes}

-- Under a limit that is on, fewer mails are recorded as sent in the last seconds.
abbrev pub Under : ℤ → Bytes → ℕ → List MailEvent → ℤ → ℕ → Type 0
Under user_id domain now es limit seconds =
    is_positive limit ≡ true
    → sent_since user_id domain ((now - seconds * 1000000000) / 1000000000) es < pos_part limit

-- Since the last mail that is recorded as sent, at a second `t`, the milliseconds of a throttle that is
-- on and shorter than 146 years have passed, if `t` is not 146 years ahead of the clock.
abbrev pub Waited : ℤ → ℕ → Option ℕ → Type 0
Waited throttle_ms now last =
    (ms t : ℕ)
    → throttle_ms ≡ pos ms
    → 1 ≤ ms
    → ms ≤ 4611686018427
    → last ≡ some t
    → t * 1000000000 ≤ now + 4611686018427387904
    → t * 1000000000 + ms * 1000000 ≤ now

-- All is counted in the database of the start, at one time of the run.
pub record Allowed (env : Env) (item : QueueItem) (w w' : World) : Type 0 where
  pub user : User
  pub found : find (λ u. eqb_ℤ u.id item.user_id) w.db.users.rows ≡ some user
  pub at : ℕ
  pub after_start : w.ticks ≤ at
  pub before_end : at ≤ w'.ticks
  pub user_waited : Waited user.throttle_ms (env.clock at) (last_of item.user_id [] (events w))
  pub domain_waited :
      is_empty (extract_domain item.rcpt_to) ≡ false
      → Waited
          (rule_at item.user_id (extract_domain item.rcpt_to) w.db).1
          (env.clock at)
          (last_of item.user_id (extract_domain item.rcpt_to) (events w))
  pub per_sec : Under item.user_id [] (env.clock at) (events w) user.limit_per_sec 1
  pub per_min : Under item.user_id [] (env.clock at) (events w) user.limit_per_min 60
  pub per_hour : Under item.user_id [] (env.clock at) (events w) user.limit_per_hour 3600
  pub per_day : Under item.user_id [] (env.clock at) (events w) user.limit_per_day 86400
  pub domain_per_hour :
      is_empty (extract_domain item.rcpt_to) ≡ false
      → Under item.user_id
          (extract_domain item.rcpt_to)
          (env.clock at)
          (events w)
          (rule_at item.user_id (extract_domain item.rcpt_to) w.db).0
          3600

-- What is left of a throttle.
left_over :
    (duration now last : ℕ)
    → duration ≤ 4611686018427000000
    → last ≤ now + 4611686018427387904
    → now < last + duration
    → pos duration -ℤ sub_time now last ≡ pos (last + duration - now)
left_over d now last h k w = ground (arith, h, k, w)

-- A wait that is not positive.
waited-le :
    (duration now last : ℕ)
    → 1 ≤ duration
    → duration ≤ 4611686018427000000
    → last ≤ now + 4611686018427387904
    → ltb_ℤ (pos 0) (wrap64 (pos duration -ℤ sub_time now last)) ≡ false
    → last + duration ≤ now
waited-le d now last on h k w = elim (Bool-cases (ltb now (last + d))) [
  | inl e ↦
      let early : now < last + d = ground (arith, e) in
      absurd (
        ground (
          arith,
          early,
          rw (left_over d now last h k early, wrap64_pos (last + d - now) (omega (arith, h, k))) at
              w,
        ))
  | inr e ↦ ground (arith, e)
]

Clear-Waited :
    (throttle_ms : ℤ) (now : ℕ) (last : Option ℕ)
    → Clear throttle_ms now last
    → Waited throttle_ms now last
unfolding throttle_wait
Clear-Waited throttle_ms now last clear ms t e on small found near =
    waited-le (ms * 1000000) now (t * 1000000000) (omega (arith, on)) (omega (arith, small)) near
      (rw (e, scale_ms ms (omega (arith, small))) at (clear (rw e (ground (arith, on))) t found))

module _ (env : Env) where
  domain-Under :
      (item : QueueItem) (user : User) (domain : Bytes) (limit : ℤ) (now : ℕ) (es : List MailEvent)
      → All (Room item.user_id now es) (limit_checks user domain limit)
      → is_empty domain ≡ false
      → Under item.user_id domain now es limit 3600
  unfolding limit_checks user_checks
  domain-Under item user domain limit now es (_, (_, (_, (_, h)))) e on = (rw (e, on) at h).0 on

  -- An item that `holdIfLimited` lets pass has a user; fewer mails of the user are recorded in the last
  -- second, minute, hour and day than each limit that is on allows, and fewer to the domain in the last
  -- hour than its rule allows; and the throttles of the user and of the domain, if they are on and
  -- shorter than 146 years, have passed since the last mail, if that is not 146 years ahead.
  pub hold_if_limited-Allowed :
      (item : QueueItem) (w : World)
      → (hold_if_limited env item w).0 ≡ ok false
      → Allowed env item w (hold_if_limited env item w).1
  unfolding limit_checks user_checks
  hold_if_limited-Allowed item w h =
      let p = hold_if_limited-Passes env item w h in
      let (sec, (min, (hour, (day, _)))) = p.room in
      record {
        user = p.user;
        found = p.found;
        at = p.at;
        after_start = p.after_start;
        before_end = p.before_end;
        user_waited = Clear-Waited _ _ _ p.user_clear;
        domain_waited = λ e. Clear-Waited _ _ _ (p.domain_clear e);
        per_sec = sec;
        per_min = min;
        per_hour = hour;
        per_day = day;
        domain_per_hour =
            domain-Under item p.user (extract_domain item.rcpt_to)
              (rule_at item.user_id (extract_domain item.rcpt_to) w.db).0 (env.clock p.at)
              (events w) p.room;
      }
