-- ===== src/Service/Delivery/Tests.antt =====
-- The worker on the small database: the second server takes two mails, and the third is held by the
-- limit of two a minute.
use smmail.Prelude.{
  count, ◌*◌, length, ◌≤◌, Bool-cases, inl, inr, eqb_ℤ, ◌≡◌, refl, pos, false, split, trim_space,
  to_lower, decimal, List, [], ◌∷◌, ◌++◌, ◌+◌, ◌%◌, Bool, Option, codes, map, arith,
}
use smmail.Models.{is_pending, UpstreamSmtp, QueueItem, QueueStatus}
use smmail.Runtime.{
  Transmission, Error, World, ok, ◌>>=◌, query, query_row, exec, send_mail, time_now,
}
use smmail.Service.Delivery.{
  ticked, run, user_checks, process, process_items, process_item, after_hold, after_delivery,
  hold_if_limited, domain_limits, rule_limits, hold_at, hold_by_domain, throttled_by_user,
  throttled_by_domain, throttled, limited, limit_checks, defer_with_reason, deliver, try_accounts,
  next_rr, rotated, deliver_by_account,
}
use smmail.Service.Send.{extract_domain}
use smmail.Repo.Users
use smmail.Repo.Domains
use smmail.Repo.Events
use smmail.Repo.Queue
use smmail.Repo.Smtps
use smmail.Service.Delivery.Windows.{IsMonotone}
use smmail.Service.Delivery.Bounded.{IsBounded, run-IsBounded}
use smmail.Service.Delivery.Allowed.{Allowed, hold_if_limited-Allowed}
use smmail.Service.Delivery.Accounts.{Tried, outcome_of, try_accounts-Tried}
use smmail.Service.Delivery.Rotation.{after_turns, turn, next_rr-turns, rotated-Perm}
use smmail.Service.Delivery.Accepted.{IsAccepted, deliver-IsAccepted}
use smmail.Repo.Smtps.{joined}
use mathlib.Core.List.{Perm}
use smmail.Service.Delivery.Still.{items}
use smmail.Service.Delivery.Moves.{IsMoved, process_item-IsMoved}
use smmail.Service.Delivery.Evolution.{Apart, AllEvolve}
use smmail.Service.Delivery.Settled.{run-AllEvolve}
use smmail.Service.Delivery.Sends.{Few}
use smmail.Service.Delivery.Sent.{run-sent_le}
use smmail.Fixture.{calm, alice, start, queued_item, smtp_account}

calm-IsMonotone : IsMonotone calm
calm-IsMonotone s t h = omega arith

start-IsBounded : IsBounded calm (pos 1) alice start
start-IsBounded = record {
  account = refl;
  per_sec = λ on. omega arith;
  per_min = λ on. omega arith;
  per_hour = λ on. omega arith;
  per_day = λ on. omega arith;
}

run-IsBounded_example : IsBounded calm (pos 1) alice (run calm (ticked ∷ ticked ∷ []) start)
run-IsBounded_example =
    run-IsBounded calm calm-IsMonotone (pos 1) alice (ticked ∷ ticked ∷ []) start start-IsBounded

passes : (hold_if_limited calm (queued_item 1) start).0 ≡ ok false
unfolding hold_if_limited domain_limits rule_limits hold_at hold_by_domain throttled_by_user
    throttled_by_domain throttled limited limit_checks user_checks extract_domain split trim_space
    to_lower decimal ◌>>=◌ query query_row time_now Users.get_by_id Domains.get
    Events.count_sent_since
passes = refl

hold_if_limited_example :
    Allowed calm (queued_item 1) start (hold_if_limited calm (queued_item 1) start).1
hold_if_limited_example = hold_if_limited-Allowed calm (queued_item 1) start passes

accepted : (deliver calm (queued_item 1) start).0 ≡ ok tt
unfolding deliver try_accounts deliver_by_account decimal ◌>>=◌ query query_row send_mail
    Users.get_by_id Smtps.list_assigned
accepted = refl

deliver_example :
    IsAccepted
      (queued_item 1)
      (joined
        (queued_item 1).user_id
        start.db.upstream_smtps.rows
        start.db.user_smtp_assignments.rows)
      start
      (deliver calm (queued_item 1) start).1
deliver_example = deliver-IsAccepted calm (queued_item 1) start accepted

abbrev accounts : List UpstreamSmtp
accounts = smtp_account 1 (codes "down") ∷ smtp_account 2 (codes "down") ∷ []

try_accounts_example :
    (log : List (Transmission × Option Error)) × (b : Bool) × Tried (queued_item 1) accounts log b
    × ((try_accounts calm (queued_item 1) [] accounts start).1.transmissions
        ≡ start.transmissions ++ log)
    × ((try_accounts calm (queued_item 1) [] accounts start).0 ≡ outcome_of [] b)
try_accounts_example = try_accounts-Tried calm (queued_item 1) [] accounts start

next_rr_example :
    (next_rr (pos 1) 3 (after_turns (pos 1) 3 4 start)).0 ≡ ok ((turn (pos 1) 3 start + 4) % 3)
next_rr_example = next_rr-turns (pos 1) 3 4 start (omega arith)

rotated_example : Perm (rotated 1 accounts) accounts
rotated_example = rotated-Perm 1 accounts (omega arith)

process_item-IsMoved_example :
    IsMoved calm (queued_item 1) start (process_item calm (queued_item 1) start).1
process_item-IsMoved_example = process_item-IsMoved calm (λ t. refl) (queued_item 1) start

start-Apart : Apart (items start)
start-Apart = ((ground arith, (ground arith, tt)), ((ground arith, tt), (tt, tt)))

run-AllEvolve_example : AllEvolve (items start) (items (run calm (ticked ∷ ticked ∷ []) start))
run-AllEvolve_example = run-AllEvolve calm (ticked ∷ ticked ∷ []) start start-Apart

-- No user has more than two servers.
start-Few : Few 2 start
start-Few = record {
  few = λ id. elim (Bool-cases (eqb_ℤ (pos 1) id)) [
    | inl e ↦ rw e (omega arith)
    | inr e ↦ rw e (omega arith)
  ];
}

run-sent_le_example :
    length (run calm (ticked ∷ ticked ∷ []) start).transmissions
    ≤ 0 + 5 * count (λ (q : QueueItem). is_pending q.status) (items start) * 2
run-sent_le_example =
    run-sent_le calm 2 (ticked ∷ ticked ∷ []) start (λ t. refl) start-Apart start-Few

-- What is left in the queue, and who was asked to take what.
statuses : World → List QueueStatus
statuses w = map (λ (q : QueueItem). q.status) w.db.outbound_queue.rows

two_sent :
    statuses (run calm (ticked ∷ []) start)
    ≡ QueueStatus.sent ∷ QueueStatus.sent ∷ QueueStatus.pending ∷ []
unfolding statuses run process process_items process_item after_hold after_delivery hold_if_limited
    domain_limits rule_limits hold_at hold_by_domain throttled_by_user throttled_by_domain throttled
    limited limit_checks user_checks defer_with_reason deliver try_accounts deliver_by_account
    extract_domain split trim_space to_lower decimal ◌>>=◌ query query_row exec send_mail time_now
    Users.get_by_id Domains.get Events.create Events.count_sent_since Events.last_sent_at
    Queue.dequeue_batch Queue.mark_sent Queue.mark_retry Queue.mark_failed Queue.defer
    Smtps.list_assigned
two_sent = refl
