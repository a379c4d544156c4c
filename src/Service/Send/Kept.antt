-- ===== src/Service/Send/Kept.antt =====
-- What the submission of mail keeps, from what its statements keep.
use smmail.Prelude.{Bytes, ℤ, List, [], ◌∷◌}
use smmail.Models.{MailEvent, QueueItem, User}
use smmail.Models.Database.{Database}
use smmail.Runtime.{Env, ok, err}
use smmail.Runtime.Effects.{Steps, Steps-attempt, Steps-if}
use smmail.Runtime.Kept.{IsDatabaseOrder, On, On-pure, On-fail, On-bind, On-time_now}
use smmail.Repo.Events
use smmail.Repo.Queue
use smmail.Service.Send.{handle_mail, queue_one}

-- The statements of the worker and of the submission that write.
pub record MailWrites (D : Database → Database → Type 0) (env : Env) : Type 0 where
  pub mark_sent : (id : ℤ) → Steps (On D) (Queue.mark_sent env id)
  pub mark_retry : (id : ℤ) (e : Bytes) → Steps (On D) (Queue.mark_retry env id e)
  pub mark_failed : (id : ℤ) (e : Bytes) → Steps (On D) (Queue.mark_failed env id e)
  pub defer : (id : ℤ) (e : Bytes) (wait : ℤ) → Steps (On D) (Queue.defer env id e wait)
  pub enqueue : (item : QueueItem) → Steps (On D) (Queue.enqueue env item)
  pub create : (e : MailEvent) → Steps (On D) (Events.create env e)

pub ruleset on_rules = (On-pure, On-fail, On-bind, On-time_now, Steps-attempt, Steps-if)

module _ {D : Database → Database → Type 0} (order : IsDatabaseOrder D) (env : Env)
    (laws : MailWrites D env) where
  queue_one-On :
      (user_id : ℤ) (mail_from body rcpt : Bytes)
      → Steps (On D) (queue_one env user_id mail_from body rcpt)
  unfolding queue_one
  queue_one-On user_id mail_from body rcpt =
      On-bind order _ _ (Steps-attempt _ (laws.enqueue _)) (elim [
        | err e ↦ search (on_rules, laws.create) depth 8
        | ok x ↦ search (on_rules, laws.create) depth 8
      ])

  pub handle_mail-On :
      (user : User) (mail_from : Bytes) (rcpts : List Bytes) (body : Bytes)
      → Steps (On D) (handle_mail env user mail_from rcpts body)
  unfolding handle_mail
  handle_mail-On user mail_from [] body = search on_rules
  handle_mail-On user mail_from (rcpt ∷ rest) body =
      Steps-if _ _ _ (On-bind order _ _ (Steps-attempt _ (laws.create _)) (λ x. On-fail order _)) (
        On-bind order _ _ (queue_one-On user.id mail_from body rcpt)
          (λ x. handle_mail-On user mail_from rest body))
