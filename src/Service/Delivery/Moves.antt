-- ===== src/Service/Delivery/Moves.antt =====
-- The transition that a round makes where the database works.
use smmail.Prelude.{
  ℕ, ◌≤◌, ◌<◌, ◌≡◌, refl, ◌∙◌, ap, Bool, true, false, leb, Bytes, ℤ, Bool-cases, inl, inr, none,
  arith,
}
use smmail.Models.{QueueItem}
use smmail.Runtime.{Env, World, Error, error_text, Result, ok, err, timestamp, exec, ◌>>=◌}
use smmail.Runtime.Effects.{exec_ok}
use smmail.Repo.Queue
use smmail.Repo.Queue.{set_sent, set_retry, set_deferred, set_failed, deferred_seconds}
use smmail.Service.Delivery.{
  hold_if_limited, deliver, after_delivery, after_hold, process_item, sent_event, failed_event,
}
use smmail.Service.Delivery.Still.{items, create-Still, deliver-Still}
use smmail.Service.Delivery.Transitions.{update_own, HoldOut, hold_if_limited-Holds}
use smmail.Service.Delivery.Round.{set_own, four}

-- What becomes of the item's row, by what the checks at `w` answer and what `deliver`, which follows
-- them, returns.
pub data Move (env : Env) (item : QueueItem) (w : World) : (QueueItem → QueueItem) → Type 0 where
  deferred :
      (reason : Bytes) (wait : ℤ) (now : ℕ)
      → (hold_if_limited env item w).0 ≡ ok true
      → Move env item w (set_deferred reason (deferred_seconds wait) now)
  unchecked :
      (e : Error) (now : ℕ)
      → (hold_if_limited env item w).0 ≡ err e
      → Move env item w (set_retry (error_text e) now)
  sent :
      (now : ℕ)
      → (hold_if_limited env item w).0 ≡ ok false
      → (deliver env item (hold_if_limited env item w).1).0 ≡ ok tt
      → Move env item w (set_sent now)
  retried :
      (e : Error) (now : ℕ)
      → (hold_if_limited env item w).0 ≡ ok false
      → (deliver env item (hold_if_limited env item w).1).0 ≡ err e
      → item.attempts < 4
      → Move env item w (set_retry (error_text e) now)
  failed :
      (e : Error) (now : ℕ)
      → (hold_if_limited env item w).0 ≡ ok false
      → (deliver env item (hold_if_limited env item w).1).0 ≡ err e
      → 4 ≤ item.attempts
      → Move env item w (set_failed (error_text e) now)

-- The rows of the item have made the move, and the other rows are as they were.
abbrev pub IsMoved : Env → QueueItem → World → World → Type 0
IsMoved env item w w' =
    (f : QueueItem → QueueItem) × Move env item w f × (items w' ≡ update_own item f (items w))

less_than_four : {n : ℕ} → leb 4 n ≡ false → n < 4
less_than_four h = ground arith

module _ (env : Env) (works : (t : ℕ) → env.fault t ≡ none) (item : QueueItem) where
  exec-items :
      (g : ℕ → QueueItem → QueueItem) (u : World)
      → items (exec env (set_own env item g) u).1
        ≡ update_own item (g (timestamp env u.ticks)) (items u)
  unfolding set_own
  exec-items g u =
      ap (λ (x : Result (Unit {0}) × World). items x.1)
        (exec_ok env (set_own env item g) u (works u.ticks))

  mark_sent-items :
      (u : World)
      → items (Queue.mark_sent env item.id u).1
        ≡ update_own item (set_sent (timestamp env u.ticks)) (items u)
  unfolding Queue.mark_sent set_own
  mark_sent-items u = exec-items set_sent u

  mark_retry-items :
      (e : Bytes) (u : World)
      → items (Queue.mark_retry env item.id e u).1
        ≡ update_own item (set_retry e (timestamp env u.ticks)) (items u)
  unfolding Queue.mark_retry set_own
  mark_retry-items e u = exec-items (set_retry e) u

  mark_failed-items :
      (e : Bytes) (u : World)
      → items (Queue.mark_failed env item.id e u).1
        ≡ update_own item (set_failed e (timestamp env u.ticks)) (items u)
  unfolding Queue.mark_failed set_own
  mark_failed-items e u = exec-items (set_failed e) u

  -- The checks have let the item pass.
  module _ (w : World) (passed : (hold_if_limited env item w).0 ≡ ok false) where
    abbrev after_checks : World
    after_checks = (hold_if_limited env item w).1

    after_delivery-IsMoved :
        (r : Result (Unit {0})) (u : World)
        → (deliver env item after_checks).0 ≡ r
        → items u ≡ items w
        → IsMoved env item w (after_delivery env item r u).1
    unfolding after_delivery ◌>>=◌
    after_delivery-IsMoved (ok tt) u h same = (
      set_sent (timestamp env u.ticks),
      sent (timestamp env u.ticks) passed h,
      ((create-Still env (sent_event item)).at (Queue.mark_sent env item.id u).1).same
          ∙ mark_sent-items u
          ∙ ap (update_own item _) same,
    )
    after_delivery-IsMoved (err e) u h same = elim (Bool-cases (leb 4 item.attempts)) [
      | inl more ↦ rw more (
        set_failed (error_text e) (timestamp env u.ticks),
        failed e (timestamp env u.ticks) passed h (four more),
        ((create-Still env (failed_event item (error_text e))).at
              (Queue.mark_failed env item.id (error_text e) u).1).same
            ∙ mark_failed-items (error_text e) u
            ∙ ap (update_own item _) same,
      )
      | inr less ↦ rw less (
        set_retry (error_text e) (timestamp env u.ticks),
        retried e (timestamp env u.ticks) passed h (less_than_four less),
        mark_retry-items (error_text e) u ∙ ap (update_own item _) same,
      )
    ]

  after_hold-IsMoved :
      (w : World) (r : Result Bool)
      → (hold_if_limited env item w).0 ≡ r
      → HoldOut item (items w) r (hold_if_limited env item w).1
      → IsMoved env item w (after_hold env item r (hold_if_limited env item w).1).1
  unfolding after_hold ◌>>=◌
  after_hold-IsMoved w (ok true) e h = (
    set_deferred h.reason (deferred_seconds h.wait) h.now,
    deferred h.reason h.wait h.now e,
    h.deferred,
  )
  after_hold-IsMoved w (ok false) e h =
      let v = (hold_if_limited env item w).1 in
      after_delivery-IsMoved w e (deliver env item v).0 (deliver env item v).1 refl
        (((deliver-Still env item).at v).same ∙ h)
  after_hold-IsMoved w (err k) e h =
      let v = (hold_if_limited env item w).1 in
      (
        set_retry (error_text k) (timestamp env v.ticks),
        unchecked k (timestamp env v.ticks) e,
        mark_retry-items (error_text k) v ∙ ap (update_own item _) h,
      )

  -- Where no statement fails, a round moves the row of its item and leaves the other rows: it is
  -- deferred where the checks hold the item; where they let it pass, it is sent if `deliver` returns
  -- no error, failed if it returns one after four attempts, and retried if it returns one before; and
  -- it is retried where the checks return an error.
  pub process_item-IsMoved : (w : World) → IsMoved env item w (process_item env item w).1
  unfolding process_item ◌>>=◌
  process_item-IsMoved w =
      after_hold-IsMoved w (hold_if_limited env item w).0 refl
        ((hold_if_limited-Holds item env).at w)
