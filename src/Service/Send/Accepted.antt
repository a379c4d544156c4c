-- ===== src/Service/Send/Accepted.antt =====
-- What a mail leaves in the queue and in the events, where no statement fails.
use smmail.Prelude.{
  ℕ, suc, ◌≡◌, refl, ◌∙◌, ap, sym, Bool, true, false, Bytes, codes, is_empty, pos, List, [], ◌∷◌,
  ◌++◌, append_assoc, append-nil, map, map-append, find, none, some, Option, Bool-cases, inl, inr,
  if◌then◌else◌,
}
use smmail.Models.{User, QueueItem, MailEvent, EventStatus}
use smmail.Models.Database.{insert_row}
use smmail.Runtime.{Env, World, Result, ok, err, message, tick, timestamp, ◌>>=◌, exec}
use smmail.Runtime.Effects.{exec_ok}
use smmail.Repo.Events
use smmail.Repo.Queue
use smmail.Service.Send.{extract_domain, new_event, new_item, queue_one, handle_mail}

abbrev pub has_no_domain : Bytes → Bool
has_no_domain rcpt = is_empty (extract_domain rcpt)

-- The recipients before the first one that has no domain.
abbrev pub accepted : List Bytes → List Bytes
accepted [] = []
accepted (rcpt ∷ rest) = if has_no_domain rcpt then [] else rcpt ∷ accepted rest

-- An item and an event without what the table sets.
abbrev pub letter : QueueItem → QueueItem
letter q = record q { id = pos 0; next_attempt_at = 0; created_at = 0; updated_at = 0 }

abbrev pub note : MailEvent → MailEvent
note e = record e { id = pos 0; created_at = 0 }

abbrev pub letters : World → List QueueItem
letters w = map letter w.db.outbound_queue.rows

abbrev pub notes : World → List MailEvent
notes w = map note w.db.mail_events.rows

abbrev pub queued_event : User → Bytes → Bytes → MailEvent
queued_event user mail_from rcpt =
    new_event user.id mail_from rcpt (extract_domain rcpt) EventStatus.queued []

-- The event for the recipient that has no domain, if there is one.
abbrev pub rejected_events : User → Bytes → Option Bytes → List MailEvent
rejected_events user mail_from none = []
rejected_events user mail_from (some rcpt) =
    new_event user.id mail_from rcpt [] EventStatus.rejected (codes "invalid recipient domain") ∷ []

abbrev pub reply : Option Bytes → Result (Unit {0})
reply none = ok tt
reply (some rcpt) = err (message (codes "invalid recipient " ++ rcpt))

module _ (env : Env) (calm : (t : ℕ) → env.fault t ≡ none) where
  -- The world after one accepted recipient.
  abbrev after_one : User → Bytes → Bytes → Bytes → World → World
  after_one user mail_from body rcpt w = record w {
    ticks = suc (suc w.ticks);
    db = record w.db {
      outbound_queue =
          insert_row
            (λ id. record (new_item user.id mail_from rcpt body) {
              id = id;
              next_attempt_at = timestamp env w.ticks;
              created_at = timestamp env w.ticks;
              updated_at = timestamp env w.ticks;
            })
            w.db.outbound_queue;
      mail_events =
          insert_row
            (λ id. record (queued_event user mail_from rcpt) {
              id = id;
              created_at = timestamp env (suc w.ticks);
            })
            w.db.mail_events;
    };
  }

  queue_one-after_one :
      (user : User) (mail_from body rcpt : Bytes) (w : World)
      → queue_one env user.id mail_from body rcpt w ≡ (ok tt, after_one user mail_from body rcpt w)
  unfolding queue_one ◌>>=◌ Events.create Queue.enqueue exec
  queue_one-after_one user mail_from body rcpt w = rw (calm w.ticks, calm (suc w.ticks)) refl

  -- What `HandleMail` does to the world, in terms of its recipients.
  pub record Submitted (user : User) (mail_from body : Bytes) (to : List Bytes) (w : World)
      (r : Result (Unit {0}) × World) : Type 0 where
    pub replied : r.0 ≡ reply (find has_no_domain to)
    pub queued :
        letters r.1 ≡ letters w ++ map (λ rcpt. new_item user.id mail_from rcpt body) (accepted to)
    pub noted :
        notes r.1
        ≡ notes w
          ++ (map (queued_event user mail_from) (accepted to)
              ++ rejected_events user mail_from (find has_no_domain to))

  abbrev rejected_event : User → Bytes → Bytes → MailEvent
  rejected_event user mail_from rcpt =
      new_event user.id mail_from rcpt [] EventStatus.rejected (codes "invalid recipient domain")

  abbrev after_rejected : MailEvent → World → World
  after_rejected e w = record (tick w) {
    db = record w.db {
      mail_events =
          insert_row (λ id. record e { id = id; created_at = timestamp env w.ticks })
            w.db.mail_events;
    };
  }

  create-after_rejected :
      (e : MailEvent) (w : World) → Events.create env e w ≡ (ok tt, after_rejected e w)
  unfolding Events.create
  create-after_rejected e w = exec_ok env _ w (calm w.ticks)

  handle_mail-rejected :
      (user : User) (mail_from body rcpt : Bytes) (rest : List Bytes) (w : World)
      → has_no_domain rcpt ≡ true
      → handle_mail env user mail_from (rcpt ∷ rest) body w
        ≡ (reply (some rcpt), after_rejected (rejected_event user mail_from rcpt) w)
  unfolding handle_mail ◌>>=◌
  handle_mail-rejected user mail_from body rcpt rest w e =
      rw (e, create-after_rejected (rejected_event user mail_from rcpt) w) refl

  rejected-Submitted :
      (user : User) (mail_from body rcpt : Bytes) (rest : List Bytes) (w : World)
      → has_no_domain rcpt ≡ true
      → Submitted user mail_from body
          (rcpt ∷ rest)
          w
          (handle_mail env user mail_from (rcpt ∷ rest) body w)
  rejected-Submitted user mail_from body rcpt rest w e =
      rw (handle_mail-rejected user mail_from body rcpt rest w e) (record {
        replied = rw e refl;
        queued = rw e (sym (append-nil (letters w)));
        noted = rw e (map-append note w.db.mail_events.rows _);
      })

  handle_mail-cons :
      (user : User) (mail_from body rcpt : Bytes) (rest : List Bytes) (w : World)
      → has_no_domain rcpt ≡ false
      → handle_mail env user mail_from (rcpt ∷ rest) body w
        ≡ handle_mail env user mail_from rest body (after_one user mail_from body rcpt w)
  unfolding handle_mail ◌>>=◌
  handle_mail-cons user mail_from body rcpt rest w e =
      rw (e, queue_one-after_one user mail_from body rcpt w) refl

  accepted-Submitted :
      (user : User) (mail_from body rcpt : Bytes) (rest : List Bytes) (w : World)
      → has_no_domain rcpt ≡ false
      → Submitted user mail_from body rest
          (after_one user mail_from body rcpt w)
          (handle_mail env user mail_from rest body (after_one user mail_from body rcpt w))
      → Submitted user mail_from body
          (rcpt ∷ rest)
          w
          (handle_mail env user mail_from (rcpt ∷ rest) body w)
  accepted-Submitted user mail_from body rcpt rest w e h =
      rw (handle_mail-cons user mail_from body rcpt rest w e) (record {
        replied = rw e h.replied;
        queued = rw e (
            h.queued
            ∙ ap
                (λ (x : List QueueItem).
                  x ++ map (λ r. new_item user.id mail_from r body) (accepted rest))
                (map-append letter w.db.outbound_queue.rows _)
            ∙ append_assoc (letters w) _ _);
        noted = rw e (
            h.noted
            ∙ ap
                (λ (x : List MailEvent).
                  x
                  ++ (map (queued_event user mail_from) (accepted rest)
                      ++ rejected_events user mail_from (find has_no_domain rest)))
                (map-append note w.db.mail_events.rows _)
            ∙ append_assoc (notes w) _ _);
      })

  -- Where no statement fails, `HandleMail` leaves one pending item, not yet tried, and one event
  -- `queued` for each recipient before the first that has no domain, in their order and after what
  -- was there, and an event `rejected` for that first one, whose error it returns.
  pub handle_mail-Submitted :
      (user : User) (mail_from : Bytes) (to : List Bytes) (body : Bytes) (w : World)
      → Submitted user mail_from body to w (handle_mail env user mail_from to body w)
  unfolding handle_mail ◌>>=◌
  handle_mail-Submitted user mail_from [] body w = record {
    replied = refl;
    queued = sym (append-nil (letters w));
    noted = sym (append-nil (notes w));
  }
  handle_mail-Submitted user mail_from (rcpt ∷ rest) body w =
      elim (Bool-cases (has_no_domain rcpt)) [
        | inl e ↦ rejected-Submitted user mail_from body rcpt rest w e
        | inr e ↦
            accepted-Submitted user mail_from body rcpt rest w e (
              handle_mail-Submitted user mail_from rest body (after_one user mail_from body rcpt w))
      ]
