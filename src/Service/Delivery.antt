-- ===== src/Service/Delivery.antt =====
-- internal/service/delivery.go: the worker that takes items from the queue, holds those that a
-- limit forbids, and hands the others to an upstream server. The log lines are left out.
pub mod Silent
pub mod Sends
pub mod Left
pub mod Fresh
pub mod Header
mod Limits
mod Upstream
pub mod Quiet
pub mod Hold
pub mod Rounds
pub mod Outcome
pub mod Windows
pub mod Bounded
pub mod Allowed
pub mod Accounts
pub mod Rotation
pub mod Accepted
pub mod Still
pub mod Kept
pub mod Transitions
pub mod Round
pub mod Moves
pub mod Evolution
pub mod Settled
pub mod Budget
pub mod Sent
pub mod Tests
unfoldable pub use Limits.*
unfoldable pub use Upstream.*
use smmail.Prelude.{
  ℕ, suc, ◌+◌, ◌-◌, ◌*◌, ◌/◌, ◌%◌, ◌^◌, Bool, true, false, not, ◌&&◌, ◌==◌, ltb, leb, Bytes, codes,
  is_empty, trim_space, decimal, ℤ, pos, negsuc, eqb_ℤ, is_positive, leb_ℤ, ltb_ℤ, scale, sub_ℕ,
  ◌-ℤ◌, wrap64, List, [], ◌∷◌, ◌++◌, Option, none, some, length, get_elem?, if◌then◌else◌,
}
use smmail.Models.{User, DomainThrottle, MailEvent, EventStatus, QueueItem, UpstreamSmtp}
use smmail.Runtime.{
  Env, World, M, Error, no_rows, message, error_text, Result, ok, err, nanoseconds, time_now,
  send_mail, pure, fail, attempt, ◌>>=◌, ◌>>◌,
}
use smmail.Repo.Users
use smmail.Repo.Domains
use smmail.Repo.Events
use smmail.Repo.Queue
use smmail.Repo.Smtps
use smmail.Service.Send.{extract_domain, new_event}

-- The events of an item that is sent or has failed.
abbrev pub sent_event : QueueItem → MailEvent
sent_event item =
    new_event item.user_id item.mail_from item.rcpt_to (extract_domain item.rcpt_to)
      EventStatus.sent []

abbrev pub failed_event : QueueItem → Bytes → MailEvent
failed_event item reason =
    new_event item.user_id item.mail_from item.rcpt_to (extract_domain item.rcpt_to)
      EventStatus.failed reason

module _ (env : Env) where
  -- What follows `deliver`. The worker drops the results of its last statements.
  pub after_delivery : QueueItem → Result (Unit {0}) → M (Unit {0})
  after_delivery item (ok _) = do
    attempt (Queue.mark_sent env item.id)
    attempt (Events.create env (sent_event item))
    pure tt
  after_delivery item (err e) =
      if leb 4 item.attempts
      then (do
        attempt (Queue.mark_failed env item.id (error_text e))
        attempt (Events.create env (failed_event item (error_text e)))
        pure tt)
      else (do attempt (Queue.mark_retry env item.id (error_text e)); pure tt)

  -- What follows `holdIfLimited`.
  pub after_hold : QueueItem → Result Bool → M (Unit {0})
  after_hold item (ok true) = pure tt
  after_hold item (ok false) = do
    delivered ← attempt (deliver env item)
    after_delivery item delivered
  after_hold item (err e) = do attempt (Queue.mark_retry env item.id (error_text e)); pure tt

  pub process_item : QueueItem → M (Unit {0})
  process_item item = do held ← attempt (hold_if_limited env item); after_hold item held

  pub process_items : List QueueItem → M (Unit {0})
  process_items [] = pure tt
  process_items (item ∷ rest) = do process_item item; process_items rest

  process_batch : Result (List QueueItem) → M (Unit {0})
  process_batch (ok items) = process_items items
  process_batch (err e) = pure tt

  pub process : M (Unit {0})
  unfolding process_batch
  process = do dequeued ← attempt (Queue.dequeue_batch env 30); process_batch dequeued

-- What `Run` receives: a tick of its ticker, or the end of its context.
pub data Signal : Type 0 where
  ticked cancelled : Signal

pub run : Env → List Signal → World → World
run env [] w = w
run env (ticked ∷ rest) w = run env rest (process env w).1
run env (cancelled ∷ rest) w = w
