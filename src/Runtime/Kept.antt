-- ===== src/Runtime/Kept.antt =====
-- Rules for the actions that keep a relation between the databases before and after: only the
-- statements that write have to be looked at.
use smmail.Prelude.{ℕ, Bytes, Option, none, some, Option-cases, inl, inr}
use smmail.Models.Database.{Database}
use smmail.Runtime.{
  Env, World, M, Error, Result, ok, err, tick, answer, pure, fail, ◌>>=◌, timestamp, statement,
  exec, query, query_row, time_now, send_mail, Transmission,
}
use smmail.Runtime.Effects.{
  Steps, IsPreorder, Steps-pure, Steps-fail, Steps-bind, Steps-time_now, exec-cases, exec_ok,
  exec_fault, query-tick, query_row-tick,
}

pub record IsDatabaseOrder (D : Database → Database → Type 0) : Type 0 where
  pub same : (db : Database) → D db db
  pub chain : (a b c : Database) → D a b → D b c → D a c

-- The relation between the databases of two worlds.
pub record On (D : Database → Database → Type 0) (w w' : World) : Type 0 where
  pub kept : D w.db w'.db

-- The database after a statement that returns, or that violates a constraint.
abbrev pub written : {A : Type 0} → Database → Result (A × Database) → Database
written db (ok (a, db')) = db'
written db (err e) = db

module _ {D : Database → Database → Type 0} (order : IsDatabaseOrder D) where
  pub On-order : IsPreorder (On D)
  On-order = record {
    same = λ w. record { kept = order.same w.db };
    chain = λ u v w p q. record { kept = order.chain u.db v.db w.db p.kept q.kept };
  }

  pub On-pure : {A : Type 0} (a : A) → Steps (On D) (pure a)
  On-pure a = Steps-pure On-order a

  pub On-fail : {A : Type 0} (e : Error) → Steps (On D) (fail {A = A} e)
  On-fail e = Steps-fail On-order e

  pub On-bind :
      {A B : Type 0} (m : M A) (f : A → M B)
      → Steps (On D) m
      → ((a : A) → Steps (On D) (f a))
      → Steps (On D) (m >>= f)
  On-bind m f h k = Steps-bind On-order m f h k

  pub On-time_now : (env : Env) → Steps (On D) (time_now env)
  On-time_now env = Steps-time_now On-order env

  pub On-tick : (w : World) → On D w (tick w)
  On-tick w = record { kept = order.same w.db }

  pub On-query : (env : Env) {A : Type 0} (f : ℕ → Database → A) → Steps (On D) (query env f)
  On-query env f = record { at = λ w. rw (query-tick env f w) (On-tick w) }

  pub On-query_row :
      (env : Env) {A : Type 0} (f : ℕ → Database → Option A) → Steps (On D) (query_row env f)
  On-query_row env f = record { at = λ w. rw (query_row-tick env f w) (On-tick w) }

  pub On-send_mail : (env : Env) (t : Transmission) → Steps (On D) (send_mail env t)
  unfolding send_mail
  On-send_mail env t = record { at = λ w. record { kept = order.same w.db } }

  pub On-exec :
      (env : Env) (f : ℕ → Database → Database)
      → ((now : ℕ) (db : Database) → D db (f now db))
      → Steps (On D) (exec env f)
  On-exec env f h = record {
    at = λ w. elim (exec-cases env f w) [
      | inl e ↦ rw e (On-tick w)
      | inr e ↦ rw e (record { kept = h (timestamp env w.ticks) w.db })
    ];
  }

  answer-On :
      {A : Type 0} (w : World) (r : Result (A × Database)) (o : Option Bytes)
      → D w.db (written w.db r)
      → On D w (answer w r o).1
  answer-On w (ok (a, db)) none h = record { kept = h }
  answer-On w (err e) none h = On-tick w
  answer-On w r (some m) h = On-tick w

  pub On-statement :
      (env : Env) {A : Type 0} (f : ℕ → Database → Result (A × Database))
      → ((now : ℕ) (db : Database) → D db (written db (f now db)))
      → Steps (On D) (statement env f)
  unfolding statement
  On-statement env f h = record {
    at = λ w.
        answer-On w (f (timestamp env w.ticks) w.db) (env.fault w.ticks)
          (h (timestamp env w.ticks) w.db);
  }

  -- Two statements, where what the second one does depends on the first, run in one world.
  second-On :
      (env : Env) (f g : ℕ → Database → Database) (w : World)
      → ((now : ℕ) → D w.db (f now w.db))
      → ((now later : ℕ) → D w.db (g later (f now w.db)))
      → On D w (exec env g (record (tick w) { db = f (timestamp env w.ticks) w.db })).1
  second-On env f g w h k =
      let next = record (tick w) { db = f (timestamp env w.ticks) w.db } in
      elim (exec-cases env g next) [
        | inl e ↦ rw e (record { kept = h (timestamp env w.ticks) })
        | inr e ↦ rw e (record { kept = k (timestamp env w.ticks) (timestamp env next.ticks) })
      ]

  pub On-two_at :
      (env : Env) (f g : ℕ → Database → Database) (w : World)
      → ((now : ℕ) → D w.db (f now w.db))
      → ((now later : ℕ) → D w.db (g later (f now w.db)))
      → On D w ((exec env f >>= λ _. exec env g) w).1
  unfolding ◌>>=◌
  On-two_at env f g w h k = elim (Option-cases (env.fault w.ticks)) [
    | inl e ↦ rw (exec_ok env f w e) (second-On env f g w h k)
    | inr (m, e) ↦ rw (exec_fault env f w m e) (On-tick w)
  ]

  -- The same in any world.
  pub On-two :
      (env : Env) (f g : ℕ → Database → Database)
      → ((now : ℕ) (db : Database) → D db (f now db))
      → ((now later : ℕ) (db : Database) → D db (g later (f now db)))
      → Steps (On D) (exec env f >>= λ _. exec env g)
  On-two env f g h k = record {
    at = λ w. On-two_at env f g w (λ now. h now w.db) (λ now later. k now later w.db);
  }
