-- ===== src/Service/Delivery/Transitions.antt =====
-- What a round of the worker does to the queue.
use smmail.Prelude.{
  ℕ, ◌-◌, ◌≡◌, refl, subst, inl, inr, Bool, true, false, Bytes, is_empty, leb_ℤ, ltb_ℤ, ℤ, pos,
  eqb_ℤ, is_positive, List, [], ◌∷◌, update, Option, none, some, Option-cases, if◌then◌else◌,
}
use smmail.Models.{QueueItem, User}
use smmail.Models.Database.{Database}
use smmail.Runtime.{Env, World, M, Result, ok, err, timestamp, continue, pure, ◌>>=◌, ◌>>◌}
use smmail.Runtime.Effects.{Steps, exec_ok, exec_fault}
use smmail.Repo.Queue
use smmail.Repo.Queue.{set_sent, set_retry, set_deferred, set_failed, deferred_seconds}
use smmail.Service.Send.{extract_domain}
use smmail.Service.Delivery.{
  LimitCheck, limit_checks, defer_with_reason, waits, throttled, throttled_by_user,
  throttled_by_domain, limited, hold_by_domain, hold_at, hold_if_limited, throttle_wait, held_event,
}
use smmail.Service.Delivery.Still.{
  Still, items, create-Still, last_sent_at-Still, count_sent_since-Still, get_by_id-Still,
  domain_limits-Still, Still-time_now,
}

-- The rows of an item, changed by `f`.
abbrev pub update_own : QueueItem → (QueueItem → QueueItem) → List QueueItem → List QueueItem
update_own item f rows = update (λ q. eqb_ℤ q.id item.id) f rows

-- What a hold check leaves of the rows: they are as they were, or it answers `true`, and the item is
-- deferred.
pub record Deferred (item : QueueItem) (rows rows' : List QueueItem) : Type 0 where
  pub reason : Bytes
  pub wait : ℤ
  pub now : ℕ
  pub deferred : rows' ≡ update_own item (set_deferred reason (deferred_seconds wait) now) rows

abbrev pub HoldOut : QueueItem → List QueueItem → Result Bool → World → Type 0
HoldOut item rows (ok true) w = Deferred item rows (items w)
HoldOut item rows (ok false) w = items w ≡ rows
HoldOut item rows (err e) w = items w ≡ rows

module _ (item : QueueItem) where
  pub record Holds (m : M Bool) : Type 0 where
    pub at : (w : World) → HoldOut item (items w) (m w).0 (m w).1

  Holds-pure : Holds (pure false)
  unfolding ◌>>=◌
  Holds-pure = record { at = λ w. refl }

  bind_out :
      {A : Type 0} (f : A → M Bool) (r : Result A) (w v : World)
      → ((a : A) → Holds (f a))
      → items v ≡ items w
      → HoldOut item (items w) (continue f r v).0 (continue f r v).1
  bind_out f (ok a) w v k same =
      subst (λ (rows : List QueueItem). HoldOut item rows (f a v).0 (f a v).1) same ((k a).at v)
  bind_out f (err e) w v k same = same

  Holds-bind :
      {A : Type 0} (m : M A) (f : A → M Bool)
      → Steps Still m
      → ((a : A) → Holds (f a))
      → Holds (m >>= f)
  unfolding ◌>>=◌
  Holds-bind m f s k = record { at = λ w. bind_out f (m w).0 w (m w).1 k ((s.at w).same) }

  -- `m` answers, and `n` is asked only if the answer is `false`.
  or_else : M Bool → Bool → M Bool
  or_else n b = if b then pure true else n

  or_out :
      (n : M Bool) (rows : List QueueItem) (r : Result Bool) (v : World)
      → Holds n
      → HoldOut item rows r v
      → HoldOut item rows (continue (or_else n) r v).0 (continue (or_else n) r v).1
  unfolding or_else ◌>>=◌
  or_out n rows (ok true) v k h = h
  or_out n rows (ok false) v k h =
      subst (λ (x : List QueueItem). HoldOut item x (n v).0 (n v).1) h (k.at v)
  or_out n rows (err e) v k h = h

  Holds-or : (m n : M Bool) → Holds m → Holds n → Holds (m >>= or_else n)
  unfolding ◌>>=◌
  Holds-or m n s k = record { at = λ w. or_out n (items w) (m w).0 (m w).1 k (s.at w) }

  Holds-if : (b : Bool) (m n : M Bool) → Holds m → Holds n → Holds (if b then m else n)
  Holds-if true m n k l = k
  Holds-if false m n k l = l

  module _ (env : Env) where
    set_own : Bytes → ℤ → ℕ → Database → Database
    set_own reason wait now db = record db {
      outbound_queue = record db.outbound_queue {
        rows =
            update_own item (set_deferred reason (deferred_seconds wait) now)
              db.outbound_queue.rows;
      };
    }

    defer_with_reason-Holds :
        (reason : Bytes) (wait : ℤ) → Holds (defer_with_reason env item reason wait >> pure true)
    unfolding defer_with_reason Queue.defer set_own ◌>>=◌
    defer_with_reason-Holds reason wait = record {
      at = λ w. elim (Option-cases (env.fault w.ticks)) [
        | inl e ↦ rw (exec_ok env (set_own reason wait) w e) (record {
          reason = reason;
          wait = wait;
          now = timestamp env w.ticks;
          deferred = ((create-Still env (held_event item reason)).at _).same;
        })
        | inr (x, e) ↦ rw (exec_fault env (set_own reason wait) w x e) refl
      ];
    }

    waits-Holds :
        (ms : ℤ) (reason : Bytes) (now : ℕ) (last : Option ℕ)
        → Holds (waits env item ms reason now last)
    unfolding waits
    waits-Holds ms reason now none = Holds-pure
    waits-Holds ms reason now (some last) =
        Holds-if (ltb_ℤ (pos 0) (throttle_wait ms now last)) _ _
          (defer_with_reason-Holds reason (throttle_wait ms now last)) Holds-pure

    throttled-Holds :
        (ms : ℤ) (domain reason : Bytes) (now : ℕ) → Holds (throttled env item ms domain reason now)
    unfolding throttled
    throttled-Holds ms domain reason now =
        Holds-if (is_positive ms) _ _
          (Holds-bind _ _ (last_sent_at-Still env item.user_id domain)
            (λ last. waits-Holds ms reason now last))
          Holds-pure

    by_user-Holds : (ms : ℤ) (now : ℕ) → Holds (throttled_by_user env item ms now)
    unfolding throttled_by_user
    by_user-Holds ms now = throttled-Holds ms _ _ now

    by_domain-Holds :
        (ms : ℤ) (domain : Bytes) (now : ℕ) → Holds (throttled_by_domain env item ms domain now)
    unfolding throttled_by_domain
    by_domain-Holds ms domain now =
        Holds-if (is_empty domain) _ _ Holds-pure (throttled-Holds ms domain _ now)

    limited-Holds : (now : ℕ) (cs : List LimitCheck) → Holds (limited env item now cs)
    unfolding limited
    limited-Holds now [] = Holds-pure
    limited-Holds now (c ∷ rest) =
        let rest_Holds = limited-Holds now rest in
        Holds-if (is_positive c.limit) _ _
          (Holds-bind _ _ (count_sent_since-Still env item.user_id c.domain (now - c.window))
            (λ sent.
              Holds-if (leb_ℤ c.limit (pos sent)) _ _
                (defer_with_reason-Holds c.reason (pos c.window)) rest_Holds))
          rest_Holds

    hold_by_domain-Holds :
        (user : User) (domain : Bytes) (rule : ℤ × ℤ) (now : ℕ)
        → Holds (hold_by_domain env item user domain rule now)
    unfolding hold_by_domain or_else
    hold_by_domain-Holds user domain (per_hour, throttle_ms) now =
        Holds-or (throttled_by_domain env item throttle_ms domain now)
          (limited env item now (limit_checks user domain per_hour))
          (by_domain-Holds throttle_ms domain now)
          (limited-Holds now (limit_checks user domain per_hour))

    hold_at-Holds :
        (user : User) (domain : Bytes) (rule : ℤ × ℤ) (now : ℕ)
        → Holds (hold_at env item user domain rule now)
    unfolding hold_at or_else
    hold_at-Holds user domain rule now =
        Holds-or (throttled_by_user env item user.throttle_ms now)
          (hold_by_domain env item user domain rule now) (by_user-Holds user.throttle_ms now)
          (hold_by_domain-Holds user domain rule now)

    pub hold_if_limited-Holds : Holds (hold_if_limited env item)
    unfolding hold_if_limited
    hold_if_limited-Holds = Holds-bind _ _ (get_by_id-Still env item.user_id) (λ user.
        Holds-bind _ _ (domain_limits-Still env item.user_id (extract_domain item.rcpt_to)) (λ rule.
          Holds-bind _ _ (Still-time_now env)
            (λ now. hold_at-Holds user (extract_domain item.rcpt_to) rule now)))
