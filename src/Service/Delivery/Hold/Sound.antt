-- ===== src/Service/Delivery/Hold/Sound.antt =====
-- The answer `false` of `holdIfLimited` comes from these checks.
use smmail.Prelude.{
  ℕ, ◌-◌, ◌/◌, ◌≡◌, refl, ◌∙◌, ap, sym, Bool, true, false, Bytes, is_empty, ℤ, pos, List, [], ◌∷◌,
  none, some, arith, All, if◌then◌else◌, eqb_ℤ, find,
}
use smmail.Models.{MailEvent, QueueItem, User}
use smmail.Runtime.{
  Env, World, M, Result, ok, pure, attempt, ◌>>=◌, query_row, nanoseconds, time_now,
}
use smmail.Runtime.Effects.{bind-eq_ok, query_row-eq_ok}
use smmail.Repo.Users
use smmail.Repo.Domains
use smmail.Repo.Domains.{is_rule}
use smmail.Repo.Events.{last_of}
use smmail.Service.Send.{extract_domain}
use smmail.Service.Delivery.{
  throttled_by_user, throttled_by_domain, hold_by_domain, hold_at, rule_limits, domain_limits,
  limited, hold_if_limited, limit_checks, LimitCheck,
}
use smmail.Service.Delivery.Quiet.{Quiet, Quiet-order, events}
use smmail.Service.Delivery.Quiet.Calls.{get_by_id-Quiet}
use smmail.Service.Delivery.Quiet.Worker.{
  hold_at-Quiet, throttled_by_user-Quiet, throttled_by_domain-Quiet, domain_limits-Quiet,
}
use smmail.Service.Delivery.Hold.{Room, Clear, limited-Room, throttled-Clear, rule_at, Passes}

module _ (env : Env) where
  found_limits :
      (user_id : ℤ) (domain : Bytes) (w : World) (p : ℤ × ℤ)
      → ((do found ← attempt (Domains.get env user_id domain); rule_limits env found) w).0 ≡ ok p
      → p ≡ elim (find (is_rule user_id domain) w.db.domain_throttles.rows) [
        | none ↦ (pos 0, pos 0)
        | some rule ↦ (rule.limit_per_hour, rule.throttle_ms)
      ]
  unfolding ◌>>=◌ Domains.get query_row rule_limits
  found_limits user_id domain w p h = ground arith

  domain_limits-rule_at :
      (user_id : ℤ) (domain : Bytes) (w : World) (p : ℤ × ℤ)
      → (domain_limits env user_id domain w).0 ≡ ok p
      → p ≡ rule_at user_id domain w.db
  unfolding domain_limits ◌>>=◌
  domain_limits-rule_at user_id [] w p h = cc
  domain_limits-rule_at user_id (c ∷ domain) w p h = found_limits user_id (c ∷ domain) w p h

  -- Room is counted the same in two worlds with the same recorded mail.
  Room-Quiet :
      (user_id : ℤ) (now : ℕ) (u v : World)
      → Quiet u v
      → (cs : List LimitCheck) → All (Room user_id now (events v)) cs
      → All (Room user_id now (events u)) cs
  Room-Quiet user_id now u v q [] h = tt
  Room-Quiet user_id now u v q (c ∷ cs) (hc, hs) = (
    (λ on. rw (← q.counts user_id c.domain ((now - c.window) / nanoseconds)) (hc on)),
    Room-Quiet user_id now u v q cs hs,
  )

  if_false :
      (b : Bool) (m : M Bool) (w : World)
      → ((if b then pure true else m) w).0 ≡ ok false
      → (b ≡ false) × ((m w).0 ≡ ok false)
  unfolding ◌>>=◌
  if_false true m w h = cc
  if_false false m w h = (refl, h)

  throttled_by_domain-Clear :
      (item : QueueItem) (ms : ℤ) (domain : Bytes) (now : ℕ) (w : World)
      → (throttled_by_domain env item ms domain now w).0 ≡ ok false
      → is_empty domain ≡ false
      → Clear ms now (last_of item.user_id domain (events w))
  unfolding throttled_by_domain
  throttled_by_domain-Clear item ms [] now w h e = cc
  throttled_by_domain-Clear item ms (c ∷ domain) now w h e =
      throttled-Clear env item ms (c ∷ domain) _ now w h

  throttled_by_user-Clear :
      (item : QueueItem) (ms : ℤ) (now : ℕ) (w : World)
      → (throttled_by_user env item ms now w).0 ≡ ok false
      → Clear ms now (last_of item.user_id [] (events w))
  unfolding throttled_by_user
  throttled_by_user-Clear item ms now w h = throttled-Clear env item ms [] _ now w h

  -- What the checks have found in the recorded mail `es`, at time `now`.
  abbrev Sound : QueueItem → User → Bytes → ℤ × ℤ → ℕ → List MailEvent → Type 0
  Sound item user domain rule now es =
      (is_empty domain ≡ false → Clear rule.1 now (last_of item.user_id domain es))
      × All (Room item.user_id now es) (limit_checks user domain rule.0)

  Sound-Quiet :
      (item : QueueItem) (user : User) (domain : Bytes) (rule : ℤ × ℤ) (now : ℕ) (u v : World)
      → Quiet u v
      → Sound item user domain rule now (events v)
      → Sound item user domain rule now (events u)
  Sound-Quiet item user domain rule now u v q (clear, room) = (
    (rw (← q.last_same item.user_id domain) clear),
    Room-Quiet item.user_id now u v q (limit_checks user domain rule.0) room,
  )

  hold_by_domain-Sound :
      (item : QueueItem) (user : User) (domain : Bytes) (rule : ℤ × ℤ) (now : ℕ) (w : World)
      → (hold_by_domain env item user domain rule now w).0 ≡ ok false
      → Sound item user domain rule now (events w)
  unfolding hold_by_domain
  hold_by_domain-Sound item user domain rule now w h =
      let m = throttled_by_domain env item rule.1 domain now in
      let cs = limit_checks user domain rule.0 in
      let v = (m w).1 in
      let (b, got, rest, _) =
        bind-eq_ok m (λ b. if b then pure true else limited env item now cs) w false h in
      let (passed, counted) = if_false b (limited env item now cs) v rest in
      (
        throttled_by_domain-Clear item rule.1 domain now w (got ∙ ap ok passed),
        Room-Quiet item.user_id now w v
            ((throttled_by_domain-Quiet env item rule.1 domain now).at w) cs
            (limited-Room env item now cs v counted),
      )

  hold_at-Sound :
      (item : QueueItem) (user : User) (domain : Bytes) (rule : ℤ × ℤ) (now : ℕ) (w : World)
      → (hold_at env item user domain rule now w).0 ≡ ok false
      → Clear user.throttle_ms now (last_of item.user_id [] (events w))
        × Sound item user domain rule now (events w)
  unfolding hold_at
  hold_at-Sound item user domain rule now w h =
      let m = throttled_by_user env item user.throttle_ms now in
      let v = (m w).1 in
      let (b, got, rest, _) =
        bind-eq_ok m (λ b. if b then pure true else hold_by_domain env item user domain rule now) w
          false h in
      let (passed, sound) = if_false b (hold_by_domain env item user domain rule now) v rest in
      (
        throttled_by_user-Clear item user.throttle_ms now w (got ∙ ap ok passed),
        Sound-Quiet item user domain rule now w v
            ((throttled_by_user-Quiet env item user.throttle_ms now).at w)
            (hold_by_domain-Sound item user domain rule now v sound),
      )

  at_clock : (f : ℕ → M Bool) (w : World) → (time_now env >>= f) w ≡ f (env.clock w.ticks) w
  unfolding ◌>>=◌ time_now
  at_clock f w = refl

  get_by_id-find :
      (user_id : ℤ) (user : User) (w : World)
      → (Users.get_by_id env user_id w).0 ≡ ok user
      → find (λ u. eqb_ℤ u.id user_id) w.db.users.rows ≡ some user
  unfolding Users.get_by_id
  get_by_id-find user_id user w h =
      query_row-eq_ok env (λ now db. find (λ u. eqb_ℤ u.id user_id) db.users.rows) w user h

  rule_at-Quiet :
      (user_id : ℤ) (domain : Bytes) (u v : World)
      → Quiet u v
      → rule_at user_id domain v.db ≡ rule_at user_id domain u.db
  rule_at-Quiet user_id domain u v q = rw q.rules_same

  Passes-at :
      (item : QueueItem) (user : User) (rule : ℤ × ℤ) (w v : World)
      → find (λ u. eqb_ℤ u.id item.user_id) w.db.users.rows ≡ some user
      → rule ≡ rule_at item.user_id (extract_domain item.rcpt_to) w.db
      → Quiet w v
      → (hold_at env item user (extract_domain item.rcpt_to) rule (env.clock v.ticks) v).0
        ≡ ok false
      → Passes env item w
          (hold_at env item user (extract_domain item.rcpt_to) rule (env.clock v.ticks) v).1
  Passes-at item user rule w v found e q h =
      let domain = extract_domain item.rcpt_to in
      let now = env.clock v.ticks in
      let (clear, sound) = hold_at-Sound item user domain rule now v h in
      let (clear_domain, room) = Sound-Quiet item user domain rule now w v q sound in
      record {
        user = user;
        found = found;
        at = v.ticks;
        after_start = q.later;
        before_end = ((hold_at-Quiet env item user domain rule now).at v).later;
        user_clear = rw (← q.last_same item.user_id []) clear;
        domain_clear = rw (← e) clear_domain;
        room = rw (← e) room;
      }

  pub hold_if_limited-Passes :
      (item : QueueItem) (w : World)
      → (hold_if_limited env item w).0 ≡ ok false
      → Passes env item w (hold_if_limited env item w).1
  unfolding hold_if_limited
  hold_if_limited-Passes item w h =
      let domain = extract_domain item.rcpt_to in
      let m1 = Users.get_by_id env item.user_id in
      let m2 = domain_limits env item.user_id domain in
      let u = (m1 w).1 in
      let v = (m2 u).1 in
      let (user, got, h1, e1) =
        bind-eq_ok m1
          (λ user. do rule ← m2; now ← time_now env; hold_at env item user domain rule now) w false
          h in
      let (rule, limits, h2, e2) =
        bind-eq_ok m2 (λ rule. do now ← time_now env; hold_at env item user domain rule now) u false
          h1 in
      let q1 = (get_by_id-Quiet env item.user_id).at w in
      let q2 = (domain_limits-Quiet env item.user_id domain).at u in
      let f = λ (now : ℕ). hold_at env item user domain rule now in
      rw (e1 ∙ e2 ∙ ap (λ (x : Result Bool × World). x.1) (at_clock f v)) (
        Passes-at item user rule w v (get_by_id-find item.user_id user w got)
          (domain_limits-rule_at item.user_id domain u rule limits
            ∙ rule_at-Quiet item.user_id domain w u q1)
          (Quiet-order.chain w u v q1 q2)
          (sym (ap (λ (x : Result Bool × World). x.0) (at_clock f v)) ∙ h2))
