-- ===== src/Service/Delivery/Settled.antt =====
-- What becomes of the rows of the queue in a run of the worker.
use smmail.Prelude.{◌≡◌, refl, List, [], ◌∷◌, filter, take, All, All-take}
use smmail.Models.{QueueItem}
use smmail.Runtime.{Env, World, Result, ok, err, timestamp, tick, ◌>>=◌}
use smmail.Runtime.Effects.{query-tick, query-eq_ok}
use smmail.Repo.Queue
use smmail.Repo.Queue.{is_due, set_sent, set_retry, set_deferred, set_failed}
use smmail.Service.Delivery.{
  process_item, process_items, process_batch, process, Signal, ticked, cancelled, run,
}
use smmail.Service.Delivery.Still.{items}
use smmail.Service.Delivery.Round.{process_item-IsRound}
use smmail.Service.Delivery.Rounds.{process_items-cons}
use smmail.Service.Delivery.Evolution.{
  AllEvolve, AllEvolve-refl, AllEvolve-trans, Apart, AllEvolve-Apart, Apart-filter, Apart-take,
}
use smmail.Service.Delivery.Fresh.{
  IsFresh, IsRound-AllEvolve, IsRound-IsFresh, Apart-IsCopy, due_IsFresh,
}

module _ (env : Env) where
  process_items-AllEvolve :
      (batch : List QueueItem) (w : World)
      → All (IsFresh (items w)) batch
      → Apart batch
      → AllEvolve (items w) (items (process_items env batch w).1)
  unfolding process_items ◌>>=◌
  process_items-AllEvolve [] w h a = AllEvolve-refl (items w)
  process_items-AllEvolve (item ∷ rest) w (h, hs) (a, later) =
      let v = (process_item env item w).1 in
      let round = process_item-IsRound env item w in
      rw (process_items-cons env item rest w) (
        AllEvolve-trans (items w) (items v) (items (process_items env rest v).1)
          (IsRound-AllEvolve env item (items w) (items v) round h)
          (process_items-AllEvolve rest v
            (IsRound-IsFresh env item (items w) (items v) rest round a hs) later))

  process_batch-AllEvolve :
      (r : Result (List QueueItem)) (w : World)
      → ((batch : List QueueItem) → r ≡ ok batch → All (IsFresh (items w)) batch × Apart batch)
      → AllEvolve (items w) (items (process_batch env r w).1)
  unfolding process_batch ◌>>=◌
  process_batch-AllEvolve (ok batch) w h =
      let (fresh, apart) = h batch refl in process_items-AllEvolve batch w fresh apart
  process_batch-AllEvolve (err e) w h = AllEvolve-refl (items w)

  pub dequeued :
      (w : World) (batch : List QueueItem)
      → (Queue.dequeue_batch env 30 w).0 ≡ ok batch
      → Apart (items w)
      → All (IsFresh (items w)) batch × Apart batch
  unfolding Queue.dequeue_batch
  dequeued w batch e a =
      let now = timestamp env w.ticks in
      let due = filter (is_due now) (items w) in
      rw
        (query-eq_ok env (λ now db. take 30 (filter (is_due now) db.outbound_queue.rows)) w batch e)
        (
          All-take (IsFresh (items w)) 30 due
              (due_IsFresh now (items w) (items w) (Apart-IsCopy (items w) a)),
          Apart-take 30 due (Apart-filter (is_due now) (items w) a),
        )

  pub process-AllEvolve :
      (w : World) → Apart (items w) → AllEvolve (items w) (items (process env w).1)
  unfolding process ◌>>=◌ Queue.dequeue_batch
  process-AllEvolve w a =
      rw (query-tick env (λ now db. take 30 (filter (is_due now) db.outbound_queue.rows)) w) (
        process_batch-AllEvolve (Queue.dequeue_batch env 30 w).0 (tick w)
          (λ batch e. dequeued w batch e a))

  -- Whatever fails, in a run of the worker on a queue whose ids differ each row stays in its place with
  -- its id, user, addresses and body; a row that is sent or failed before is not changed; the attempts
  -- do not fall; and a row fails only after five attempts.
  pub run-AllEvolve :
      (signals : List Signal) (w : World)
      → Apart (items w)
      → AllEvolve (items w) (items (run env signals w))
  unfolding run
  run-AllEvolve [] w a = AllEvolve-refl (items w)
  run-AllEvolve (cancelled ∷ rest) w a = AllEvolve-refl (items w)
  run-AllEvolve (ticked ∷ rest) w a =
      let v = (process env w).1 in
      let h = process-AllEvolve w a in
      AllEvolve-trans (items w) (items v) (items (run env rest v)) h
        (run-AllEvolve rest v (AllEvolve-Apart (items w) (items v) h a))
