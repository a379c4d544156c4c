-- ===== src/Runtime/Effects.antt =====
-- Rules for actions: what a run can have done to the world, by the way the action is built, and what
-- follows from the result of a part.
use smmail.Prelude.{
  ℕ, ◌≡◌, refl, ap, ◌⊎◌, Bytes, inl, inr, Bool, true, false, Option, none, some, arith,
  if◌then◌else◌, Option-cases,
}
use smmail.Models.Database.{Database}
use smmail.Runtime.{
  Env, World, M, Error, Result, ok, err, no_rows, message, tick, continue, answer, pure, fail,
  attempt, ◌>>=◌, timestamp, exec, query, query_row, time_now,
}

-- Every run of `m` is a step of the relation `R`, whether it returns or fails.
pub record Steps (R : World → World → Type 0) {A : Type 0} (m : M A) : Type 0 where
  pub at : (w : World) → R w (m w).1

pub record IsPreorder (R : World → World → Type 0) : Type 0 where
  pub same : (w : World) → R w w
  pub chain : (u v w : World) → R u v → R v w → R u w

module _ {R : World → World → Type 0} (order : IsPreorder R) where
  pub Steps-pure : {A : Type 0} (a : A) → Steps R (pure a)
  unfolding ◌>>=◌
  Steps-pure a = record { at = λ w. order.same w }

  pub Steps-fail : {A : Type 0} (e : Error) → Steps R (fail {A = A} e)
  unfolding ◌>>=◌
  Steps-fail e = record { at = λ w. order.same w }

  pub Steps-time_now : (env : Env) → Steps R (time_now env)
  unfolding time_now
  Steps-time_now env = record { at = λ w. order.same w }

  continue-step :
      {A B : Type 0} (f : A → M B) (r : Result A) (u w : World)
      → ((a : A) → Steps R (f a))
      → R u w
      → R u (continue f r w).1
  continue-step f (ok a) u w kf h = order.chain u w (f a w).1 h ((kf a).at w)
  continue-step f (err e) u w kf h = h

  pub Steps-bind :
      {A B : Type 0} (m : M A) (f : A → M B)
      → Steps R m
      → ((a : A) → Steps R (f a))
      → Steps R (m >>= f)
  unfolding ◌>>=◌
  Steps-bind m f km kf = record { at = λ w. continue-step f (m w).0 w (m w).1 kf (km.at w) }

module _ {R : World → World → Type 0} where
  pub Steps-attempt : {A : Type 0} (m : M A) → Steps R m → Steps R (attempt m)
  unfolding ◌>>=◌
  Steps-attempt m km = record { at = λ w. km.at w }

  pub Steps-if :
      {A : Type 0} (b : Bool) (m n : M A) → Steps R m → Steps R n → Steps R (if b then m else n)
  Steps-if true m n km kn = km
  Steps-if false m n km kn = kn

-- The database that a statement leaves.
abbrev stored : {A : Type 0} → Database → Result (A × Database) → Database
stored db (ok (a, db')) = db'
stored db (err e) = db

module _ (env : Env) where
  answer-cases :
      {A : Type 0} (w : World) (r : Result (A × Database)) (o : Option Bytes)
      → ((answer w r o).1 ≡ tick w) ⊎ ((answer w r o).1 ≡ record (tick w) { db = stored w.db r })
  answer-cases w (ok (a, db)) none = inr refl
  answer-cases w (err e) none = inl refl
  answer-cases w r (some e) = inl refl

  -- A statement takes a tick, and the database is the old one or the new one.
  pub exec-cases :
      (f : ℕ → Database → Database) (w : World)
      → ((exec env f w).1 ≡ tick w)
        ⊎ ((exec env f w).1 ≡ record (tick w) { db = f (timestamp env w.ticks) w.db })
  unfolding exec
  exec-cases f w = answer-cases w (ok (tt, f (timestamp env w.ticks) w.db)) (env.fault w.ticks)

  -- Where no fault strikes, the new database is there.
  pub exec_ok :
      (f : ℕ → Database → Database) (w : World)
      → env.fault w.ticks ≡ none
      → exec env f w ≡ (ok tt, record (tick w) { db = f (timestamp env w.ticks) w.db })
  unfolding exec
  exec_ok f w e = rw (e, exec)

  pub exec_fault :
      (f : ℕ → Database → Database) (w : World) (e : Bytes)
      → env.fault w.ticks ≡ some e
      → exec env f w ≡ (err (message e), tick w)
  unfolding exec
  exec_fault f w e h = rw (h, exec)

  -- A statement that returns has written.
  pub exec-eq_ok :
      (f : ℕ → Database → Database) (w : World)
      → (exec env f w).0 ≡ ok tt
      → (exec env f w).1 ≡ record (tick w) { db = f (timestamp env w.ticks) w.db }
  exec-eq_ok f w h = elim (Option-cases (env.fault w.ticks)) [
    | inl e ↦ ap (λ (x : Result (Unit {0}) × World). x.1) (exec_ok f w e)
    | inr (m, e) ↦
        let refused = ap (λ (x : Result (Unit {0}) × World). x.0) (exec_fault f w m e) in cc
  ]

  pub query-tick : {A : Type 0} (f : ℕ → Database → A) (w : World) → (query env f w).1 ≡ tick w
  unfolding query
  query-tick f w = elim (Option-cases (env.fault w.ticks)) [
    | inl e ↦ rw (e, query)
    | inr (x, e) ↦ rw (e, query)
  ]

  pub query_row-tick :
      {A : Type 0} (f : ℕ → Database → Option A) (w : World) → (query_row env f w).1 ≡ tick w
  unfolding query_row
  query_row-tick f w = elim (Option-cases (f (timestamp env w.ticks) w.db)) [
    | inl n ↦ elim (Option-cases (env.fault w.ticks)) [
      | inl e ↦ rw (n, e, query_row)
      | inr (x, e) ↦ rw (n, e, query_row)
    ]
    | inr (a, s) ↦ elim (Option-cases (env.fault w.ticks)) [
      | inl e ↦ rw (s, e, query_row)
      | inr (x, e) ↦ rw (s, e, query_row)
    ]
  ]

  pub query_ok :
      {A : Type 0} (f : ℕ → Database → A) (w : World)
      → env.fault w.ticks ≡ none
      → query env f w ≡ (ok (f (timestamp env w.ticks) w.db), tick w)
  unfolding query
  query_ok f w e = rw (e, query)

  pub query_row_ok :
      {A : Type 0} (f : ℕ → Database → Option A) (w : World) (a : A)
      → env.fault w.ticks ≡ none
      → f (timestamp env w.ticks) w.db ≡ some a
      → query_row env f w ≡ (ok a, tick w)
  unfolding query_row
  query_row_ok f w a e h = rw (h, e, query_row)

  pub query_row-none :
      {A : Type 0} (f : ℕ → Database → Option A) (w : World)
      → env.fault w.ticks ≡ none
      → f (timestamp env w.ticks) w.db ≡ none
      → query_row env f w ≡ (err no_rows, tick w)
  unfolding query_row
  query_row-none f w e h = rw (h, e, query_row)

  -- A query that returns has read the database at its tick.
  pub query-eq_ok :
      {A : Type 0} (f : ℕ → Database → A) (w : World) (a : A)
      → (query env f w).0 ≡ ok a
      → a ≡ f (timestamp env w.ticks) w.db
  unfolding query
  query-eq_ok f w a h = ground arith

  pub query_row-eq_ok :
      {A : Type 0} (f : ℕ → Database → Option A) (w : World) (a : A)
      → (query_row env f w).0 ≡ ok a
      → f (timestamp env w.ticks) w.db ≡ some a
  unfolding query_row
  query_row-eq_ok f w a h = ground arith

continue-eq_ok :
    {A B : Type 0} (f : A → M B) (r : Result A) (v : World) (b : B)
    → (continue f r v).0 ≡ ok b
    → (a : A) × (r ≡ ok a) × ((f a v).0 ≡ ok b) × ((continue f r v).1 ≡ (f a v).1)
continue-eq_ok f (ok a) v b h = (a, refl, h, refl)
continue-eq_ok f (err e) v b h = cc

-- A bind that returns has had a first part that returned.
pub bind-eq_ok :
    {A B : Type 0} (m : M A) (f : A → M B) (w : World) (b : B)
    → ((m >>= f) w).0 ≡ ok b
    → (a : A) × ((m w).0 ≡ ok a) × ((f a (m w).1).0 ≡ ok b) × (((m >>= f) w).1 ≡ (f a (m w).1).1)
unfolding ◌>>=◌
bind-eq_ok m f w b h = continue-eq_ok f (m w).0 (m w).1 b h
