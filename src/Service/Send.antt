-- ===== src/Service/Send.antt =====
-- internal/service/send.go: what becomes of a message that the SMTP server accepts.
pub mod Accepted
pub mod Kept
pub mod Tests
use smmail.Prelude.{
  Bytes, codes, is_empty, split, trim_space, to_lower, pos, List, [], ◌∷◌, ◌++◌, if◌then◌else◌, ℤ,
}
use smmail.Models.{User, MailEvent, EventStatus, QueueItem, QueueStatus}
use smmail.Runtime.{Env, M, message, ok, err, pure, fail, attempt, ◌>>=◌, ◌>>◌}
use smmail.Repo.Events
use smmail.Repo.Queue

-- `parts[1]`, if there are two parts.
domain_part : List Bytes → Bytes
domain_part (local ∷ domain ∷ []) = to_lower domain
domain_part _ = []

unfoldable pub extract_domain : Bytes → Bytes
unfolding domain_part
extract_domain addr = domain_part (split (trim_space addr) b'@')

-- `models.MailEvent{…}`: the id and the time are set by the table.
abbrev pub new_event : ℤ → Bytes → Bytes → Bytes → EventStatus → Bytes → MailEvent
new_event user_id mail_from rcpt_to domain status reason = record {
  id = pos 0;
  user_id = user_id;
  mail_from = mail_from;
  rcpt_to = rcpt_to;
  domain = domain;
  status = status;
  reason = reason;
  created_at = 0;
}

-- `models.QueueItem{…}`: what is left out is zero.
abbrev pub new_item : ℤ → Bytes → Bytes → Bytes → QueueItem
new_item user_id mail_from rcpt_to body = record {
  id = pos 0;
  user_id = user_id;
  mail_from = mail_from;
  rcpt_to = rcpt_to;
  body = body;
  status = QueueStatus.pending;
  attempts = 0;
  next_attempt_at = 0;
  last_error = [];
  created_at = 0;
  updated_at = 0;
}

module _ (env : Env) where
  -- One recipient with a domain: the result of `Enqueue` and the event that it leaves. The result of
  -- `events.Create` is dropped.
  queue_one : ℤ → Bytes → Bytes → Bytes → M (Unit {0})
  queue_one user_id mail_from body rcpt = do
    stored ← attempt (Queue.enqueue env (new_item user_id mail_from rcpt body))
    elim stored [
      | err e ↦ do
        attempt (
            Events.create env (
              new_event user_id mail_from rcpt (extract_domain rcpt) EventStatus.failed
                (codes "queue insert failed")))
        fail e
      | ok _ ↦ do
        attempt (
            Events.create env
              (new_event user_id mail_from rcpt (extract_domain rcpt) EventStatus.queued []))
        pure tt
    ]

  unfoldable pub handle_mail : User → Bytes → List Bytes → Bytes → M (Unit {0})
  unfolding queue_one
  handle_mail user mail_from [] body = pure tt
  handle_mail user mail_from (rcpt ∷ rest) body =
      if is_empty (extract_domain rcpt)
      then (do
        attempt (
            Events.create env (
              new_event user.id mail_from rcpt [] EventStatus.rejected
                (codes "invalid recipient domain")))
        fail (message (codes "invalid recipient " ++ rcpt)))
      else (do queue_one user.id mail_from body rcpt; handle_mail user mail_from rest body)
