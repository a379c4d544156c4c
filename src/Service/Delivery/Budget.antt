-- ===== src/Service/Delivery/Budget.antt =====
-- How often the worker delivers: each call of `deliver` lowers what is left to the pending rows.
use smmail.Prelude.{
  ℕ, ◌+◌, ◌*◌, ◌≤◌, ◌≡◌, refl, Bool, true, false, List, [], ◌∷◌, count, filter, take, All,
  All-filter, All-take, none, arith,
}
use smmail.Models.{QueueItem, is_pending}
use smmail.Runtime.{Env, World, Result, ok, err, timestamp, tick, ◌>>=◌}
use smmail.Runtime.Effects.{query-tick, query-eq_ok}
use smmail.Repo.Queue
use smmail.Repo.Queue.{is_due}
use smmail.Service.Delivery.{
  hold_if_limited, process_item, process_items, process_batch, process, Signal, ticked, cancelled,
  run,
}
use smmail.Service.Delivery.Still.{items}
use smmail.Service.Delivery.Round.{process_item-IsRound}
use smmail.Service.Delivery.Rounds.{process_items-cons}
use smmail.Service.Delivery.Moves.{
  Move, deferred, unchecked, sent, retried, failed, process_item-IsMoved,
}
use smmail.Service.Delivery.Evolution.{AllEvolve-Apart, Apart}
use smmail.Service.Delivery.Settled.{dequeued, process-AllEvolve}
use smmail.Service.Delivery.Fresh.{IsFresh, IsRound-AllEvolve, IsRound-IsFresh}
use smmail.Service.Delivery.Left.{
  left, total_left, total_left-le, Present, total-update, Present-self, All-Present-AllEvolve,
}

-- A round calls `deliver` if the checks let the item pass.
abbrev pub calls_of : Result Bool → ℕ
calls_of (ok false) = 1
calls_of (ok true) = 0
calls_of (err e) = 0

module _ (env : Env) where
  -- How often `process_items` and `run` call `deliver`.
  unfoldable pub deliveries_in : List QueueItem → World → ℕ
  deliveries_in [] w = 0
  deliveries_in (item ∷ rest) w =
      calls_of (hold_if_limited env item w).0 + deliveries_in rest (process_item env item w).1

  abbrev pub deliveries_of : Result (List QueueItem) → World → ℕ
  deliveries_of (ok batch) w = deliveries_in batch w
  deliveries_of (err e) w = 0

  unfoldable pub deliveries : List Signal → World → ℕ
  deliveries [] w = 0
  deliveries (cancelled ∷ rest) w = 0
  deliveries (ticked ∷ rest) w =
      let (batch, v) = Queue.dequeue_batch env 30 w in
      deliveries_of batch v + deliveries rest (process env w).1

  Move-left :
      (item : QueueItem) (w : World) (f : QueueItem → QueueItem)
      → Move env item w f
      → is_pending item.status ≡ true
      → left (f item) + calls_of (hold_if_limited env item w).0 ≤ left item
  Move-left item w _ (deferred reason wait now h) p = rw h (omega arith)
  Move-left item w _ (unchecked e now h) p = rw h (ground (arith, p))
  Move-left item w _ (sent now h d) p = rw h (ground (arith, p))
  Move-left item w _ (retried e now h d less) p = rw h (ground (arith, p, less))
  Move-left item w _ (failed e now h d more) p = rw h (ground (arith, p))

module _ (env : Env) (works : (t : ℕ) → env.fault t ≡ none) where
  process_item-spends :
      (item : QueueItem) (w : World)
      → IsFresh (items w) item
      → Present (items w) item
      → total_left (items (process_item env item w).1) + calls_of (hold_if_limited env item w).0
        ≤ total_left (items w)
  process_item-spends item w fresh there =
      let (f, move, moved) = process_item-IsMoved env works item w in
      rw moved (
        total-update item f (calls_of (hold_if_limited env item w).0)
          (Move-left env item w f move fresh.0) (items w) fresh there)

  process_items-spends :
      (batch : List QueueItem) (w : World)
      → All (IsFresh (items w)) batch
      → All (Present (items w)) batch
      → Apart batch
      → total_left (items (process_items env batch w).1) + deliveries_in env batch w
        ≤ total_left (items w)
  unfolding process_items deliveries_in ◌>>=◌
  process_items-spends [] w h there a = omega arith
  process_items-spends (item ∷ rest) w (h, hs) (there, theres) (a, later) =
      let v = (process_item env item w).1 in
      let round = process_item-IsRound env item w in
      let evolved = IsRound-AllEvolve env item (items w) (items v) round h in
      rw (process_items-cons env item rest w) (
        omega (
          arith,
          process_item-spends item w h there,
          process_items-spends rest v (IsRound-IsFresh env item (items w) (items v) rest round a hs)
              (All-Present-AllEvolve (items w) (items v) rest evolved theres) later,
        ))

  batch-Present :
      (w : World) (batch : List QueueItem)
      → (Queue.dequeue_batch env 30 w).0 ≡ ok batch
      → All (Present (items w)) batch
  unfolding Queue.dequeue_batch
  batch-Present w batch e =
      let now = timestamp env w.ticks in
      rw
        (query-eq_ok env (λ now db. take 30 (filter (is_due now) db.outbound_queue.rows)) w batch e)
        (All-take (Present (items w)) 30 (filter (is_due now) (items w))
          (All-filter (Present (items w)) (is_due now) (items w) (Present-self (items w))))

  process_batch-spends :
      (r : Result (List QueueItem)) (w : World)
      → ((batch : List QueueItem) → r ≡ ok batch → All (IsFresh (items w)) batch × Apart batch)
      → ((batch : List QueueItem) → r ≡ ok batch → All (Present (items w)) batch)
      → total_left (items (process_batch env r w).1) + deliveries_of env r w ≤ total_left (items w)
  unfolding process_batch ◌>>=◌
  process_batch-spends (ok batch) w h k =
      let (fresh, apart) = h batch refl in process_items-spends batch w fresh (k batch refl) apart
  process_batch-spends (err e) w h k = omega arith

  process-spends :
      (w : World)
      → Apart (items w)
      → total_left (items (process env w).1)
          + deliveries_of env (Queue.dequeue_batch env 30 w).0 (Queue.dequeue_batch env 30 w).1
        ≤ total_left (items w)
  unfolding process ◌>>=◌ Queue.dequeue_batch
  process-spends w a =
      rw (query-tick env (λ now db. take 30 (filter (is_due now) db.outbound_queue.rows)) w) (
        process_batch-spends (Queue.dequeue_batch env 30 w).0 (tick w)
          (λ batch e. dequeued env w batch e a) (batch-Present w))

  run-spends :
      (signals : List Signal) (w : World)
      → Apart (items w)
      → total_left (items (run env signals w)) + deliveries env signals w ≤ total_left (items w)
  unfolding run deliveries
  run-spends [] w a = omega arith
  run-spends (cancelled ∷ rest) w a = omega arith
  run-spends (ticked ∷ rest) w a =
      let v = (process env w).1 in
      omega (
        arith,
        process-spends w a,
        run-spends rest v (AllEvolve-Apart (items w) (items v) (process-AllEvolve env w a) a),
      )

  pub deliveries-le :
      (signals : List Signal) (w : World)
      → Apart (items w)
      → deliveries env signals w ≤ 5 * count (λ (q : QueueItem). is_pending q.status) (items w)
  deliveries-le signals w a = omega (arith, run-spends signals w a, total_left-le (items w))
