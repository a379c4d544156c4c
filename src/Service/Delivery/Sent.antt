-- ===== src/Service/Delivery/Sent.antt =====
-- How many messages a run of the worker hands to the upstream servers.
use smmail.Prelude.{
  ℕ, ◌+◌, ◌*◌, ◌≤◌, ◌≡◌, Bool, true, false, List, [], ◌∷◌, length, count, none, arith,
}
use smmail.Models.{QueueItem, is_pending}
use smmail.Runtime.{Env, World, Result, ok, err, tick, ◌>>=◌}
use smmail.Runtime.Effects.{query-tick}
use smmail.Prelude.{take, filter}
use smmail.Repo.Queue
use smmail.Repo.Queue.{is_due}
use smmail.Service.Delivery.{
  hold_if_limited, process_item, process_items, process_batch, process, Signal, ticked, cancelled,
  run,
}
use smmail.Service.Delivery.Still.{items}
use smmail.Service.Delivery.Rounds.{process_items-cons}
use smmail.Service.Delivery.Evolution.{Apart}
use smmail.Service.Delivery.Silent.{Silent-tick}
use smmail.Service.Delivery.Sends.{
  Few, Sends, Silent-Sends, Sends-refl, Sends-chain, Few-Sends, cost, process_item-Sends,
}
use smmail.Service.Delivery.Budget.{
  calls_of, deliveries_in, deliveries_of, deliveries, deliveries-le,
}

add_times : (a b n : ℕ) → (a + b) * n ≡ a * n + b * n
add_times a b n = grind arith

times-le : (a b n : ℕ) → a ≤ b → a * n ≤ b * n
times-le a b n h = grind arith

cost-le : (n : ℕ) (r : Result Bool) → cost n r ≤ calls_of r * n
cost-le n (ok true) = omega arith
cost-le n (ok false) = omega arith
cost-le n (err e) = omega arith

module _ (env : Env) (n : ℕ) where
  process_items-Sends :
      (batch : List QueueItem) (w : World)
      → Few n w
      → Sends (deliveries_in env batch w * n) w (process_items env batch w).1
  unfolding process_items deliveries_in ◌>>=◌
  process_items-Sends [] w h = Sends-refl _ w
  process_items-Sends (item ∷ rest) w h =
      let v = (process_item env item w).1 in
      let r = (hold_if_limited env item w).0 in
      let s = process_item-Sends env item n w h in
      rw (process_items-cons env item rest w) (
        Sends-chain (cost n r) (deliveries_in env rest v * n) _ w v _
          (omega (arith, cost-le n r, add_times (calls_of r) (deliveries_in env rest v) n)) s
          (process_items-Sends rest v (Few-Sends n (cost n r) w v s h)))

  process_batch-Sends :
      (r : Result (List QueueItem)) (w : World)
      → Few n w
      → Sends (deliveries_of env r w * n) w (process_batch env r w).1
  unfolding process_batch ◌>>=◌
  process_batch-Sends (ok batch) w h = process_items-Sends batch w h
  process_batch-Sends (err e) w h = Sends-refl _ w

  process-Sends :
      (w : World)
      → Few n w
      → Sends
          (deliveries_of env (Queue.dequeue_batch env 30 w).0 (Queue.dequeue_batch env 30 w).1 * n)
          w
          (process env w).1
  unfolding process ◌>>=◌ Queue.dequeue_batch
  process-Sends w h =
      let q = Silent-Sends 0 w (tick w) (Silent-tick w) in
      rw (query-tick env (λ now db. take 30 (filter (is_due now) db.outbound_queue.rows)) w) (
        Sends-chain 0 _ _ w (tick w) _ (omega arith) q (
          process_batch-Sends (Queue.dequeue_batch env 30 w).0 (tick w)
            (Few-Sends n 0 w (tick w) q h)))

  run-Sends :
      (signals : List Signal) (w : World)
      → Few n w
      → Sends (deliveries env signals w * n) w (run env signals w)
  unfolding run deliveries
  run-Sends [] w h = Sends-refl _ w
  run-Sends (cancelled ∷ rest) w h = Sends-refl _ w
  run-Sends (ticked ∷ rest) w h =
      let (batch, u) = Queue.dequeue_batch env 30 w in
      let v = (process env w).1 in
      let s = process-Sends w h in
      Sends-chain (deliveries_of env batch u * n) (deliveries env rest v * n) _ w v _
        (omega (arith, add_times (deliveries_of env batch u) (deliveries env rest v) n)) s
        (run-Sends rest v (Few-Sends n _ w v s h))

  -- Where no statement fails, a run of the worker on a queue whose ids differ, however long it is, hands
  -- at most five messages for each mail that is pending at its start and each server of a user to the
  -- upstream servers, if no user has more than `n` servers that are assigned and enabled.
  pub run-sent_le :
      (signals : List Signal) (w : World)
      → ((t : ℕ) → env.fault t ≡ none)
      → Apart (items w)
      → Few n w
      → length (run env signals w).transmissions
        ≤ length w.transmissions + 5 * count (λ (q : QueueItem). is_pending q.status) (items w) * n
  run-sent_le signals w works a h = omega (
    arith,
    (run-Sends signals w h).sent,
    times-le (deliveries env signals w)
        (5 * count (λ (q : QueueItem). is_pending q.status) (items w)) n
        (deliveries-le env works signals w a),
  )
