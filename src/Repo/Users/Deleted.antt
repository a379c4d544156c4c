-- ===== src/Repo/Users/Deleted.antt =====
-- What is left of a user after `DeleteHard`.
use smmail.Prelude.{
  ℕ, ◌≡◌, refl, ap, Bool, not, Bytes, ℤ, eqb_ℤ, List, [], ◌∷◌, count, filter, Bool-cases,
  Option-cases, inl, inr, arith,
}
use smmail.Models.{User, DomainThrottle, MailEvent, QueueItem, UserSmtpAssignment}
use smmail.Models.Database.{Database}
use smmail.Runtime.{
  Env, World, M, Error, message, Result, ok, err, tick, timestamp, exec, ◌>>=◌, ◌>>◌,
}
use smmail.Runtime.Effects.{exec_ok, exec_fault}
use smmail.Repo.Users.{delete_hard}

-- No row of the owner is left, and the others are as they were.
pub record IsCleared {ℓ} {A : Type ℓ} (own : A → Bool) (rows rows' : List A) : Type ℓ where
  pub gone : count own rows' ≡ 0
  pub others_same : filter (λ a. not (own a)) rows' ≡ filter (λ a. not (own a)) rows

module _ {ℓ} {A : Type ℓ} (own : A → Bool) where
  count-filter-not : (rows : List A) → count own (filter (λ a. not (own a)) rows) ≡ 0
  count-filter-not [] = omega arith
  count-filter-not (x ∷ xs) = ground (arith, count-filter-not xs)

  filter_twice :
      (rows : List A)
      → filter (λ a. not (own a)) (filter (λ a. not (own a)) rows) ≡ filter (λ a. not (own a)) rows
  filter_twice [] = refl
  filter_twice (x ∷ xs) = elim (Bool-cases (own x)) [
    | inl e ↦ rw e (filter_twice xs)
    | inr e ↦ rw (e, e) (ap (λ (r : List A). x ∷ r) (filter_twice xs))
  ]

  filter-IsCleared : (rows : List A) → IsCleared own rows (filter (λ a. not (own a)) rows)
  filter-IsCleared rows = record { gone = count-filter-not rows; others_same = filter_twice rows }

-- Nothing of the user is left in the five tables.
pub record IsGone (id : ℤ) (db db' : Database) : Type 0 where
  pub users : IsCleared (λ (u : User). eqb_ℤ u.id id) db.users.rows db'.users.rows
  pub rules :
      IsCleared
        (λ (d : DomainThrottle). eqb_ℤ d.user_id id)
        db.domain_throttles.rows
        db'.domain_throttles.rows
  pub events :
      IsCleared (λ (e : MailEvent). eqb_ℤ e.user_id id) db.mail_events.rows db'.mail_events.rows
  pub items :
      IsCleared
        (λ (q : QueueItem). eqb_ℤ q.user_id id)
        db.outbound_queue.rows
        db'.outbound_queue.rows
  pub assignments :
      IsCleared
        (λ (a : UserSmtpAssignment). eqb_ℤ a.user_id id)
        db.user_smtp_assignments.rows
        db'.user_smtp_assignments.rows

-- All is gone, or there is an error and the users are as they were.
pub data IsDeletion (id : ℤ) (w : World) : Result (Unit {0}) × World → Type 0 where
  deleted : (w' : World) → IsGone id w.db w'.db → IsDeletion id w (ok tt, w')
  stopped : (e : Error) (w' : World) → w'.db.users ≡ w.db.users → IsDeletion id w (err e, w')

module _ (env : Env) where
  abbrev after : (ℕ → Database → Database) → World → World
  after f w = record (tick w) { db = f (timestamp env w.ticks) w.db }

  -- A statement and what follows.
  exec_then :
      (f : ℕ → Database → Database) (n : M (Unit {0})) (w : World)
      (Q : Result (Unit {0}) × World → Type 0)
      → Q (n (after f w))
      → ((x : Bytes) → Q (err (message x), tick w))
      → Q ((exec env f >> n) w)
  unfolding ◌>>=◌
  exec_then f n w Q h k = elim (Option-cases (env.fault w.ticks)) [
    | inl e ↦ rw (exec_ok env f w e) h
    | inr (x, e) ↦ rw (exec_fault env f w x e) (k x)
  ]

  exec_last :
      (f : ℕ → Database → Database) (w : World) (Q : Result (Unit {0}) × World → Type 0)
      → Q (ok tt, after f w)
      → ((x : Bytes) → Q (err (message x), tick w))
      → Q (exec env f w)
  exec_last f w Q h k = elim (Option-cases (env.fault w.ticks)) [
    | inl e ↦ rw (exec_ok env f w e) h
    | inr (x, e) ↦ rw (exec_fault env f w x e) (k x)
  ]

  -- Whichever of its statements fails, after `DeleteHard` either there was no error, and no row of
  -- the five tables belongs to the user while the others are as they were, or there was an error,
  -- and the users are as they were.
  pub delete_hard-IsDeletion : (id : ℤ) (w : World) → IsDeletion id w (delete_hard env id w)
  unfolding delete_hard
  delete_hard-IsDeletion id w =
      exec_then _ _ w (IsDeletion id w)
        (exec_then _ _ _ (IsDeletion id w)
          (exec_then _ _ _ (IsDeletion id w)
            (exec_then _ _ _ (IsDeletion id w)
              (exec_last _ _ (IsDeletion id w)
                (deleted _ (record {
                  users = filter-IsCleared _ w.db.users.rows;
                  rules = filter-IsCleared _ w.db.domain_throttles.rows;
                  events = filter-IsCleared _ w.db.mail_events.rows;
                  items = filter-IsCleared _ w.db.outbound_queue.rows;
                  assignments = filter-IsCleared _ w.db.user_smtp_assignments.rows;
                }))
                (λ x. stopped _ _ refl))
              (λ x. stopped _ _ refl))
            (λ x. stopped _ _ refl))
          (λ x. stopped _ _ refl))
        (λ x. stopped _ _ refl)
