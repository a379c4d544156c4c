-- ===== src/HttpApi/Effects/Found.antt =====
-- What a handler keeps where that depends on a row that it has found, or on a test that it has made.
use smmail.Prelude.{
  ℕ, suc, ◌≡◌, refl, Bool, true, false, ℤ, pos, Option, some, Option-cases, inl, inr,
}
use smmail.Models.{UpstreamSmtp}
use smmail.Models.Database.{Database, insert_row}
use smmail.Runtime.{
  Env, M, Error, message, Result, ok, err, tick, timestamp, exec, query_row, statement,
}
use smmail.Runtime.Effects.{exec_ok, exec_fault}
use smmail.Runtime.Kept.{IsDatabaseOrder, On}
use smmail.Repo.Smtps
use smmail.HttpApi.Reply.{
  Site, H, Response, proceed, or_reply, give, send, call, look, refuse_if, bind_json, ◌>>=◌,
}
use smmail.HttpApi.Effects.{Within, Within-same, Within-chain, Runs}

module _ {D : Database → Database → Type 0} (order : IsDatabaseOrder D) (env : Env) where
  -- Only the world's clock has moved.
  abbrev pub later : Site → Site
  later s = record s { world = tick s.world }

  abbrev stored : UpstreamSmtp → Site → Site
  stored row s = record s {
    world = record (tick s.world) {
      db = record s.world.db {
        upstream_smtps =
            insert_row (λ id. record row { id = id; created_at = timestamp env s.world.ticks })
              s.world.db.upstream_smtps;
      };
    };
  }

  Within-later : (s t : Site) → Within D (later s) t → Within D s t
  Within-later s t h = record {
    kept = h.kept;
    sessions_same = h.sessions_same;
    admin_same = h.admin_same;
  }

  answered-Within :
      {A B : Type 0} (r : Result A) (f : Error → Response) (k : A → H B) (t : Site)
      → ((a : A) → Runs D (k a))
      → Within D t (proceed k (or_reply f r) t).1
  answered-Within (ok a) f k t l = (l a).at t
  answered-Within (err e) f k t l = Within-same order t

  -- A row is looked for, and the rest may use that it was found in the database of the start.
  pub seen-Within :
      {A B : Type 0} (g : Database → Option A) (f : Error → Response) (k : A → H B) (s : Site)
      → ((a : A) (t : Site)
          → t.world.db ≡ s.world.db
          → g s.world.db ≡ some a
          → Within D t (k a t).1)
      → Within D s ((call f (query_row env (λ now db. g db)) >>= k) s).1
  unfolding call ◌>>=◌ query_row
  seen-Within g f k s h = elim (Option-cases (env.fault s.world.ticks)) [
    | inl e ↦ elim (Option-cases (g s.world.db)) [
      | inl n ↦ rw (e, n) (Within-later s (later s) (Within-same order (later s)))
      | inr (a, n) ↦ rw (e, n) (Within-later s (k a (later s)).1 (h a (later s) refl n))
    ]
    | inr (m, e) ↦ rw e (Within-later s (later s) (Within-same order (later s)))
  ]

  pub found-Within :
      {A B : Type 0} (g : Database → Option A) (f : Error → Response) (k : A → H B) (s : Site)
      → ((a : A) (t : Site) → g t.world.db ≡ some a → Within D t (k a t).1)
      → Within D s ((call f (query_row env (λ now db. g db)) >>= k) s).1
  found-Within g f k s h = seen-Within g f k s (λ a t same e. h a t (rw same e))

  -- The form that was bound.
  pub bound-Within :
      {A B : Type 0} (form : Result A) (k : A → H B) (s : Site)
      → ((a : A) → Within D s (k a s).1)
      → Within D s ((bind_json form >>= k) s).1
  unfolding ◌>>=◌ send give
  bound-Within (ok a) k s h = h a
  bound-Within (err e) k s h = Within-same order s

  -- The rest may use that the test was false.
  pub passed-Within :
      {B : Type 0} (b : Bool) (r : Response) (k : Unit {0} → H B) (s : Site)
      → (b ≡ false → Within D s (k tt s).1)
      → Within D s ((refuse_if b r >>= k) s).1
  unfolding ◌>>=◌ send give
  passed-Within true r k s h = Within-same order s
  passed-Within false r k s h = h refl

  -- One statement, and the rest.
  pub exec-Within :
      {B : Type 0} (g : ℕ → Database → Database) (f : Error → Response) (k : Unit {0} → H B)
      (s : Site)
      → ((now : ℕ) → D s.world.db (g now s.world.db))
      → ((x : Unit {0}) → Runs D (k x))
      → Within D s ((call f (exec env g) >>= k) s).1
  unfolding call ◌>>=◌ exec statement
  exec-Within g f k s h l = elim (Option-cases (env.fault s.world.ticks)) [
    | inl e ↦ rw e (
        Within-chain order s
          (record s {
            world = record (tick s.world) { db = g (timestamp env s.world.ticks) s.world.db };
          })
          _
          (record {
            kept = h (timestamp env s.world.ticks);
            sessions_same = refl;
            admin_same = refl;
          })
          ((l tt).at _))
    | inr (m, e) ↦ rw e (Within-later s (later s) (Within-same order (later s)))
  ]

  -- A server is created, and the rest may use that its row is the last one.
  pub created-Within :
      {B : Type 0} (row : UpstreamSmtp) (f : Error → Response) (k : ℤ → H B) (s : Site)
      → ((now : ℕ)
          → D s.world.db (record s.world.db {
            upstream_smtps =
                insert_row
                  (λ id. record row { id = id; created_at = now })
                  s.world.db.upstream_smtps;
          }))
      → ((now : ℕ) (t : Site)
          → t.world.db.upstream_smtps
            ≡ insert_row (λ id. record row { id = id; created_at = now }) s.world.db.upstream_smtps
          → Within D t (k (pos (suc s.world.db.upstream_smtps.last_id)) t).1)
      → Within D s ((call f (Smtps.create env row) >>= k) s).1
  unfolding call ◌>>=◌ Smtps.create statement
  created-Within row f k s h l = elim (Option-cases (env.fault s.world.ticks)) [
    | inl e ↦ rw e (
        Within-chain order s (stored row s) _
          (record {
            kept = h (timestamp env s.world.ticks);
            sessions_same = refl;
            admin_same = refl;
          })
          (l (timestamp env s.world.ticks) (stored row s) refl))
    | inr (m, e) ↦ rw e (Within-later s (later s) (Within-same order (later s)))
  ]

  -- One statement, whose outcome is dropped, and the rest.
  pub dropped-Within :
      {B : Type 0} (g : ℕ → Database → Database) (k : Result (Unit {0}) → H B) (s : Site)
      → ((now : ℕ) → D s.world.db (g now s.world.db))
      → ((r : Result (Unit {0})) → Runs D (k r))
      → Within D s ((look (exec env g) >>= k) s).1
  unfolding look ◌>>=◌
  dropped-Within g k s h l = elim (Option-cases (env.fault s.world.ticks)) [
    | inl e ↦ rw (exec_ok env g s.world e) (
        Within-chain order s
          (record s {
            world = record (tick s.world) { db = g (timestamp env s.world.ticks) s.world.db };
          })
          _
          (record {
            kept = h (timestamp env s.world.ticks);
            sessions_same = refl;
            admin_same = refl;
          })
          ((l (ok tt)).at _))
    | inr (m, e) ↦
        rw (exec_fault env g s.world m e) (Within-later s _ ((l (err (message m))).at (later s)))
  ]

  -- A call that keeps the relation in this world, and the rest.
  pub called-Within :
      {A B : Type 0} (m : M A) (f : Error → Response) (k : A → H B) (s : Site)
      → On D s.world (m s.world).1
      → ((a : A) → Runs D (k a))
      → Within D s ((call f m >>= k) s).1
  unfolding call ◌>>=◌
  called-Within m f k s h l =
      Within-chain order s (record s { world = (m s.world).1 }) _
        (record { kept = h.kept; sessions_same = refl; admin_same = refl })
        (answered-Within (m s.world).0 f k (record s { world = (m s.world).1 }) l)
