-- ===== src/Service/Delivery/Quiet/Calls.antt =====
-- The calls of the worker that leave the counts of sent mail as they are.
use smmail.Prelude.{
  ℕ, suc, ◌≡◌, refl, ◌⊎◌, inl, inr, false, ◌&&◌, Bytes, ℤ, pos, [], ◌∷◌, arith, leb, count-append,
}
use smmail.Models.{MailEvent, QueueItem, UpstreamSmtp, is_sent}
use smmail.Models.Database.{insert_row}
use smmail.Runtime.{Env, World, tick, timestamp, send_mail}
use smmail.Runtime.Effects.{
  Steps, IsPreorder, Steps-pure, Steps-fail, Steps-time_now, Steps-bind, Steps-attempt, Steps-if,
  exec-cases, query-tick, query_row-tick,
}
use smmail.Repo.Events
use smmail.Repo.Events.{sent_since, is_sent_by, last_of}
use smmail.Repo.Users
use smmail.Repo.Domains
use smmail.Repo.Queue
use smmail.Repo.Smtps
use smmail.Service.Delivery.{deliver_by_account, next_rr}
use smmail.Service.Delivery.Quiet.{
  events, Quiet, Quiet-order, Quiet-pure, Quiet-fail, Quiet-bind, Quiet-time_now, Quiet-tick,
  last_of-append, exec-Quiet, query-Quiet, query_row-Quiet,
}

module _ (env : Env) where
  pub get_by_id-Quiet : (id : ℤ) → Steps Quiet (Users.get_by_id env id)
  unfolding Users.get_by_id
  get_by_id-Quiet id = query_row-Quiet env _

  pub get-Quiet : (id : ℤ) (domain : Bytes) → Steps Quiet (Domains.get env id domain)
  unfolding Domains.get
  get-Quiet id domain = query_row-Quiet env _

  pub list_assigned-Quiet : (id : ℤ) → Steps Quiet (Smtps.list_assigned env id)
  unfolding Smtps.list_assigned
  list_assigned-Quiet id = query-Quiet env _

  pub dequeue_batch-Quiet : (n : ℕ) → Steps Quiet (Queue.dequeue_batch env n)
  unfolding Queue.dequeue_batch
  dequeue_batch-Quiet n = query-Quiet env _

  pub last_sent_at-Quiet :
      (id : ℤ) (domain : Bytes) → Steps Quiet (Events.last_sent_at env id domain)
  unfolding Events.last_sent_at
  last_sent_at-Quiet id domain = query-Quiet env _

  pub count_sent_since-Quiet :
      (id : ℤ) (domain : Bytes) (since : ℕ)
      → Steps Quiet (Events.count_sent_since env id domain since)
  unfolding Events.count_sent_since
  count_sent_since-Quiet id domain since = query-Quiet env _

  pub mark_sent-Quiet : (id : ℤ) → Steps Quiet (Queue.mark_sent env id)
  unfolding Queue.mark_sent
  mark_sent-Quiet id = exec-Quiet env _ (λ now db. refl) (λ now db. refl) (λ now db. refl)

  pub mark_retry-Quiet : (id : ℤ) (e : Bytes) → Steps Quiet (Queue.mark_retry env id e)
  unfolding Queue.mark_retry
  mark_retry-Quiet id e = exec-Quiet env _ (λ now db. refl) (λ now db. refl) (λ now db. refl)

  pub mark_failed-Quiet : (id : ℤ) (e : Bytes) → Steps Quiet (Queue.mark_failed env id e)
  unfolding Queue.mark_failed
  mark_failed-Quiet id e = exec-Quiet env _ (λ now db. refl) (λ now db. refl) (λ now db. refl)

  pub defer-Quiet : (id : ℤ) (e : Bytes) (wait : ℤ) → Steps Quiet (Queue.defer env id e wait)
  unfolding Queue.defer
  defer-Quiet id e wait = exec-Quiet env _ (λ now db. refl) (λ now db. refl) (λ now db. refl)

  pub next_rr-Quiet : (id : ℤ) (n : ℕ) → Steps Quiet (next_rr id n)
  unfolding next_rr
  next_rr-Quiet id n = record {
    at = λ w. record {
      later = omega arith;
      users_same = refl;
      rules_same = refl;
      counts = λ u d s. refl;
      last_same = λ u d. refl;
    };
  }

  pub deliver_by_account-Quiet :
      (item : QueueItem) (acc : UpstreamSmtp) → Steps Quiet (deliver_by_account env item acc)
  unfolding deliver_by_account send_mail
  deliver_by_account-Quiet item acc = record {
    at = λ w. record {
      later = omega arith;
      users_same = refl;
      rules_same = refl;
      counts = λ u d s. refl;
      last_same = λ u d. refl;
    };
  }

  -- The world after an event was recorded.
  abbrev pub recorded : MailEvent → World → World
  recorded e w = record (tick w) {
    db = record w.db {
      mail_events =
          insert_row (λ id. record e { id = id; created_at = timestamp env w.ticks })
            w.db.mail_events;
    };
  }

  pub create-cases :
      (e : MailEvent) (w : World)
      → ((Events.create env e w).1 ≡ tick w) ⊎ ((Events.create env e w).1 ≡ recorded e w)
  unfolding Events.create
  create-cases e w =
      exec-cases env
        (λ now db. record db {
          mail_events = insert_row (λ id. record e { id = id; created_at = now }) db.mail_events;
        })
        w

  -- An event of another kind counts as nothing.
  recorded-Quiet : (e : MailEvent) (w : World) → is_sent e.status ≡ false → Quiet w (recorded e w)
  recorded-Quiet e w h = record {
    later = omega arith;
    users_same = refl;
    rules_same = refl;
    last_same = λ u d. last_of-append u d (events w) _ h;
    counts = λ u d s. ground (
      arith,
      h,
      count-append (λ x. is_sent_by u d x && leb s x.created_at) (events w)
          (record e { id = pos (suc w.db.mail_events.last_id); created_at = timestamp env w.ticks }
            ∷ []),
    );
  }

  pub create-Quiet : (e : MailEvent) → is_sent e.status ≡ false → Steps Quiet (Events.create env e)
  create-Quiet e h = record {
    at = λ w. elim (create-cases e w) [
      | inl t ↦ rw t (Quiet-tick w)
      | inr t ↦ rw t (recorded-Quiet e w h)
    ];
  }

  pub ruleset quiet_rules = (
    Quiet-pure, Quiet-fail, Quiet-bind, Quiet-time_now, Steps-attempt, Steps-if, get_by_id-Quiet,
    get-Quiet, list_assigned-Quiet, dequeue_batch-Quiet, last_sent_at-Quiet, count_sent_since-Quiet,
    mark_sent-Quiet, mark_retry-Quiet, mark_failed-Quiet, defer-Quiet, next_rr-Quiet,
    deliver_by_account-Quiet,
  )
