-- ===== src/Service/Delivery/Round.antt =====
-- What becomes of an item in a round.
use smmail.Prelude.{
  ℕ, ◌≤◌, ◌≡◌, refl, ◌∙◌, ap, sym, subst, ◌⊎◌, inl, inr, Bool, true, false, Bytes, leb, ℤ, List,
  Bool-cases, arith,
}
use smmail.Models.{QueueItem}
use smmail.Models.Database.{Database}
use smmail.Runtime.{Env, World, Error, error_text, Result, ok, err, timestamp, exec, ◌>>=◌}
use smmail.Runtime.Effects.{exec-cases}
use smmail.Repo.Queue
use smmail.Repo.Queue.{set_sent, set_retry, set_deferred, set_failed, deferred_seconds}
use smmail.Service.Delivery.{
  hold_if_limited, deliver, after_delivery, after_hold, process_item, sent_event, failed_event,
}
use smmail.Service.Delivery.Still.{items, create-Still, deliver-Still}
use smmail.Service.Delivery.Transitions.{update_own, HoldOut, hold_if_limited-Holds}

-- The changes of a row that the worker can make in a round for an item: it is sent only where
-- `deliver` has returned no error, and failed only where it has returned one, after four attempts.
pub data Transition (env : Env) (item : QueueItem) : (QueueItem → QueueItem) → Type 0 where
  sent : (v : World) (now : ℕ) → (deliver env item v).0 ≡ ok tt → Transition env item (set_sent now)
  deferred :
      (reason : Bytes) (wait : ℤ) (now : ℕ)
      → Transition env item (set_deferred reason (deferred_seconds wait) now)
  retried : (reason : Bytes) (now : ℕ) → Transition env item (set_retry reason now)
  failed :
      (e : Error) (v : World) (now : ℕ)
      → (deliver env item v).0 ≡ err e
      → 4 ≤ item.attempts
      → Transition env item (set_failed (error_text e) now)

-- The rows are as they were, or those of the item have made one transition.
abbrev pub IsRound : Env → QueueItem → List QueueItem → List QueueItem → Type 0
IsRound env item rows rows' =
    (rows' ≡ rows)
    ⊎ ((f : QueueItem → QueueItem) × Transition env item f × (rows' ≡ update_own item f rows))

pub four : {n : ℕ} → leb 4 n ≡ true → 4 ≤ n
four h = ground arith

module _ (env : Env) (item : QueueItem) where
  unfoldable pub set_own : (ℕ → QueueItem → QueueItem) → ℕ → Database → Database
  set_own g now db = record db {
    outbound_queue = record db.outbound_queue {
      rows = update_own item (g now) db.outbound_queue.rows;
    };
  }

  exec-IsRound :
      (g : ℕ → QueueItem → QueueItem) (w : World)
      → ((now : ℕ) → Transition env item (g now))
      → IsRound env item (items w) (items (exec env (set_own g) w).1)
  unfolding set_own
  exec-IsRound g w h = elim (exec-cases env (set_own g) w) [
    | inl e ↦ inl (ap items e)
    | inr e ↦ inr (g (timestamp env w.ticks), h (timestamp env w.ticks), ap items e)
  ]

  later_same :
      (rows rows' rows'' : List QueueItem)
      → IsRound env item rows rows'
      → rows'' ≡ rows'
      → IsRound env item rows rows''
  later_same rows rows' rows'' h e =
      subst (λ (x : List QueueItem). IsRound env item rows x) (sym e) h

  mark_sent-IsRound :
      (v w : World)
      → (deliver env item v).0 ≡ ok tt
      → IsRound env item (items w) (items (Queue.mark_sent env item.id w).1)
  unfolding Queue.mark_sent set_own
  mark_sent-IsRound v w h = exec-IsRound set_sent w (λ now. sent v now h)

  mark_retry-IsRound :
      (e : Bytes) (w : World)
      → IsRound env item (items w) (items (Queue.mark_retry env item.id e w).1)
  unfolding Queue.mark_retry set_own
  mark_retry-IsRound e w = exec-IsRound (set_retry e) w (retried e)

  mark_failed-IsRound :
      (e : Error) (v w : World)
      → (deliver env item v).0 ≡ err e
      → 4 ≤ item.attempts
      → IsRound env item (items w) (items (Queue.mark_failed env item.id (error_text e) w).1)
  unfolding Queue.mark_failed set_own
  mark_failed-IsRound e v w k h =
      exec-IsRound (set_failed (error_text e)) w (λ now. failed e v now k h)

  after_delivery-IsRound :
      (r : Result (Unit {0})) (v w : World)
      → (deliver env item v).0 ≡ r
      → IsRound env item (items w) (items (after_delivery env item r w).1)
  unfolding after_delivery ◌>>=◌
  after_delivery-IsRound (ok tt) v w h =
      later_same (items w) (items (Queue.mark_sent env item.id w).1) _ (mark_sent-IsRound v w h)
        (((create-Still env (sent_event item)).at (Queue.mark_sent env item.id w).1).same)
  after_delivery-IsRound (err e) v w h = elim (Bool-cases (leb 4 item.attempts)) [
    | inl more ↦
        let u = (Queue.mark_failed env item.id (error_text e) w).1 in
        rw more (
          later_same (items w) (items u) _ (mark_failed-IsRound e v w h (four more))
            (((create-Still env (failed_event item (error_text e))).at u).same))
    | inr less ↦ rw less (mark_retry-IsRound (error_text e) w)
  ]

  from_same :
      (rows rows' rows'' : List QueueItem)
      → rows' ≡ rows
      → IsRound env item rows' rows''
      → IsRound env item rows rows''
  from_same rows rows' rows'' e h = subst (λ (x : List QueueItem). IsRound env item x rows'') e h

  after_hold-IsRound :
      (rows : List QueueItem) (r : Result Bool) (w : World)
      → HoldOut item rows r w
      → IsRound env item rows (items (after_hold env item r w).1)
  unfolding after_hold ◌>>=◌
  after_hold-IsRound rows (ok true) w h = inr (
    set_deferred h.reason (deferred_seconds h.wait) h.now,
    deferred h.reason h.wait h.now,
    h.deferred,
  )
  after_hold-IsRound rows (ok false) w h =
      from_same rows (items (deliver env item w).1) _ (((deliver-Still env item).at w).same ∙ h)
        (after_delivery-IsRound (deliver env item w).0 w (deliver env item w).1 refl)
  after_hold-IsRound rows (err e) w h =
      from_same rows (items w) _ h (mark_retry-IsRound (error_text e) w)

  -- Whatever fails, a round leaves the queue as it was, or makes one transition of the item's row and
  -- leaves the other rows.
  pub process_item-IsRound :
      (w : World) → IsRound env item (items w) (items (process_item env item w).1)
  unfolding process_item ◌>>=◌
  process_item-IsRound w =
      after_hold-IsRound (items w) (hold_if_limited env item w).0 (hold_if_limited env item w).1
        ((hold_if_limited-Holds item env).at w)
