-- ===== src/Service/Delivery/Rounds.antt =====
-- Induction over the rounds of the worker.
use smmail.Prelude.{
  ◌≡◌, refl, Bool, true, false, leb, List, [], ◌∷◌, Bool-cases, inl, inr, take, filter,
}
use smmail.Models.{QueueItem}
use smmail.Runtime.{Env, World, Result, ok, err, tick, continue, ◌>>=◌}
use smmail.Runtime.Effects.{query-tick}
use smmail.Repo.Queue
use smmail.Repo.Queue.{is_due}
use smmail.Service.Delivery.{
  hold_if_limited, deliver, after_delivery, after_hold, process_item, process_items, process_batch,
  process, Signal, ticked, cancelled, run,
}

module _ (env : Env) where
  after_delivery-ok :
      (item : QueueItem) (r : Result (Unit {0})) (w : World)
      → (after_delivery env item r w).0 ≡ ok tt
  unfolding after_delivery ◌>>=◌
  after_delivery-ok item (ok done) w = refl
  after_delivery-ok item (err e) w = elim (Bool-cases (leb 4 item.attempts)) [
    | inl more ↦ rw more refl
    | inr less ↦ rw less refl
  ]

  after_hold-ok :
      (item : QueueItem) (r : Result Bool) (w : World) → (after_hold env item r w).0 ≡ ok tt
  unfolding after_hold ◌>>=◌
  after_hold-ok item (ok true) w = refl
  after_hold-ok item (ok false) w =
      after_delivery-ok item (deliver env item w).0 (deliver env item w).1
  after_hold-ok item (err e) w = refl

  -- Whatever fails, the round goes on with the next item.
  pub process_item-ok : (item : QueueItem) (w : World) → (process_item env item w).0 ≡ ok tt
  unfolding process_item ◌>>=◌
  process_item-ok item w =
      after_hold-ok item (hold_if_limited env item w).0 (hold_if_limited env item w).1

  -- So each item is processed, in the order of the batch.
  pub process_items-cons :
      (item : QueueItem) (items : List QueueItem) (w : World)
      → process_items env (item ∷ items) w ≡ process_items env items (process_item env item w).1
  unfolding process_items ◌>>=◌
  process_items-cons item items w = rw (process_item-ok item w, continue)

  module _ {P : World → Type 0}
      (step : (item : QueueItem) (w : World) → P w → P (process_item env item w).1) where
    pub process_items_induction :
        (items : List QueueItem) (w : World) → P w → P (process_items env items w).1
    unfolding process_items ◌>>=◌
    process_items_induction [] w h = h
    process_items_induction (item ∷ items) w h =
        rw (process_items-cons item items w)
          (process_items_induction items (process_item env item w).1 (step item w h))

    module _ (wait : (w : World) → P w → P (tick w)) where
      batch_induction :
          (r : Result (List QueueItem)) (w : World) → P w → P (process_batch env r w).1
      unfolding process_batch ◌>>=◌
      batch_induction (ok items) w h = process_items_induction items w h
      batch_induction (err e) w h = h

      pub process_induction : (w : World) → P w → P (process env w).1
      unfolding process ◌>>=◌ Queue.dequeue_batch
      process_induction w h =
          batch_induction (Queue.dequeue_batch env 30 w).0 (Queue.dequeue_batch env 30 w).1 (
            rw (query-tick env (λ now db. take 30 (filter (is_due now) db.outbound_queue.rows)) w)
              (wait w h))

      pub run_induction : (signals : List Signal) (w : World) → P w → P (run env signals w)
      unfolding run
      run_induction [] w h = h
      run_induction (ticked ∷ rest) w h =
          run_induction rest (process env w).1 (process_induction w h)
      run_induction (cancelled ∷ rest) w h = h
