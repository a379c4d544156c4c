-- ===== src/Service/Delivery/Outcome.antt =====
-- What a round of the worker does with one item.
use smmail.Prelude.{◌≤◌, ◌≡◌, refl, ◌⊎◌, inl, inr, Bool, true, false, leb, arith}
use smmail.Models.{QueueItem}
use smmail.Runtime.{Env, World, Error, Result, ok, err, tick, ◌>>=◌, error_text}
use smmail.Runtime.Effects.{Steps, Steps-if, Steps-attempt}
use smmail.Repo.Events
use smmail.Repo.Queue
use smmail.Service.Delivery.{
  hold_if_limited, sent_event, failed_event, deliver, after_delivery, after_hold, process_item,
}
use smmail.Service.Delivery.Quiet.{Quiet, Quiet-order, Quiet-pure, Quiet-bind, Quiet-tick}
use smmail.Service.Delivery.Quiet.Calls.{
  quiet_rules, create-Quiet, mark_failed-Quiet, mark_retry-Quiet, mark_sent-Quiet, recorded,
  create-cases,
}
use smmail.Service.Delivery.Quiet.Worker.{hold_if_limited-Quiet, deliver-Quiet}
use smmail.Service.Delivery.Hold.{Passes}
use smmail.Service.Delivery.Hold.Sound.{hold_if_limited-Passes}

-- What a round of the worker does with an item: no sent mail is recorded, or the item has passed the
-- checks, and one sent mail is recorded for it, with nothing recorded in between.
pub record Delivered (env : Env) (item : QueueItem) (w w' : World) : Type 0 where
  pub checked : World
  pub passes : Passes env item w checked
  pub before : World
  pub quiet : Quiet w before
  pub after_checks : checked.ticks ≤ before.ticks
  pub recorded_last : w' ≡ recorded env (sent_event item) before

abbrev pub Outcome : Env → QueueItem → World → World → Type 0
Outcome env item w w' = Quiet w w' ⊎ Delivered env item w w'

module _ (env : Env) where
  failed_delivery-Quiet :
      (item : QueueItem) (e : Error) → Steps Quiet (after_delivery env item (err e))
  unfolding after_delivery
  failed_delivery-Quiet item e =
      Steps-if (leb 4 item.attempts) _ _
        (Quiet-bind _ _ (Steps-attempt _ (mark_failed-Quiet env item.id (error_text e))) λ _.
          Quiet-bind _ _
            (Steps-attempt _ (create-Quiet env (failed_event item (error_text e)) refl))
            λ _. Quiet-pure tt)
        (search quiet_rules)

  -- The statement that marks the item, then the event.
  recorded_delivery :
      (item : QueueItem) (w : World)
      → (after_delivery env item (ok tt) w).1
        ≡ (Events.create env (sent_event item) (Queue.mark_sent env item.id w).1).1
  unfolding after_delivery ◌>>=◌
  recorded_delivery item w = refl

  delivered-Outcome :
      (item : QueueItem) (w v u : World)
      → Passes env item w v
      → Quiet w v
      → Quiet v u
      → Outcome env item w (after_delivery env item (ok tt) u).1
  delivered-Outcome item w v u passes q r =
      let y = (Queue.mark_sent env item.id u).1 in
      let s = (mark_sent-Quiet env item.id).at u in
      let t = Quiet-order.chain w u y (Quiet-order.chain w v u q r) s in
      rw (recorded_delivery item u) (elim (create-cases env (sent_event item) y) [
        | inl e ↦ inl (rw e (Quiet-order.chain w y (tick y) t (Quiet-tick y)))
        | inr e ↦ inr (record {
          checked = v;
          passes = passes;
          before = y;
          quiet = t;
          after_checks = omega (arith, r.later, s.later);
          recorded_last = e;
        })
      ])

  after_delivery-Outcome :
      (item : QueueItem) (w v u : World) (r : Result (Unit {0}))
      → Passes env item w v
      → Quiet w v
      → Quiet v u
      → Outcome env item w (after_delivery env item r u).1
  after_delivery-Outcome item w v u (ok done) passes q r = delivered-Outcome item w v u passes q r
  after_delivery-Outcome item w v u (err e) passes q r =
      inl (
        Quiet-order.chain w u _ (Quiet-order.chain w v u q r) ((failed_delivery-Quiet item e).at u))

  after_hold-Outcome :
      (item : QueueItem) (w v : World) (r : Result Bool)
      → (r ≡ ok false → Passes env item w v)
      → Quiet w v
      → Outcome env item w (after_hold env item r v).1
  unfolding after_hold ◌>>=◌
  after_hold-Outcome item w v (ok true) passes q = inl q
  after_hold-Outcome item w v (err e) passes q =
      inl (Quiet-order.chain w v _ q ((mark_retry-Quiet env item.id (error_text e)).at v))
  after_hold-Outcome item w v (ok false) passes q =
      after_delivery-Outcome item w v (deliver env item v).1 (deliver env item v).0 (passes refl) q
        ((deliver-Quiet env item).at v)

  -- Either no sent mail is recorded, or one for this item, which has passed the checks.
  pub process_item-Outcome :
      (item : QueueItem) (w : World) → Outcome env item w (process_item env item w).1
  unfolding process_item ◌>>=◌
  process_item-Outcome item w =
      after_hold-Outcome item w (hold_if_limited env item w).1 (hold_if_limited env item w).0
        (hold_if_limited-Passes env item w) ((hold_if_limited-Quiet env item).at w)
