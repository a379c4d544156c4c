-- ===== src/Smtp/Refused.antt =====
-- A client whose passwords fit no account gets nothing into the tables.
use smmail.Prelude.{
  ◌≡◌, refl, ◌≢◌, ◌∙◌, ap, sym, subst, find, eqb, some, true, false, Bytes, List, [], ◌∷◌, All,
}
use smmail.Models.{User}
use smmail.Models.Database.{Database}
use smmail.Runtime.{Env, World, Result, ok, err, ◌>>=◌, continue, pure}
use smmail.Service.Auth.{validate}
use smmail.Service.Auth.Valid.{validate-tick, validate-eq_ok}
use smmail.Smtp.{
  Session, Command, authenticate, mail, rcpt, data_read, reset, logout, is_anonymous, handle, serve,
  checked_name, handle_auth, handle_from, handle_data, kept,
}

-- If the call checks a password, it does not fit the hash of the account that has the name.
abbrev pub IsRefused : Env → List User → Command → Type 0
IsRefused env users (authenticate server user pass) =
    (u : User)
    → find (λ v. eqb v.username (checked_name server user)) users ≡ some u
    → env.same_password u.password_hash pass ≡ false
IsRefused env users _ = Unit {0}

module _ (env : Env) where
  -- The session stays anonymous, and the tables stay.
  record Stays (s : Session) (w : World) (r : Result Session) (w' : World) : Type 0 where
    pub anonymous : is_anonymous (kept s r) ≡ true
    pub same_db : w'.db ≡ w.db

  auth_kept :
      (s : Session) (r : Result User) (w : World)
      → ((u : User) → r ≢ ok u)
      → is_anonymous s ≡ true
      → is_anonymous (kept s (continue (λ u. pure (record s { user = u })) r w).0) ≡ true
  auth_kept s (ok u) w h a = absurd (h u refl)
  auth_kept s (err e) w h a = a

  auth_world :
      (s : Session) (r : Result User) (w : World)
      → (continue (λ u. pure (record s { user = u })) r w).1 ≡ w
  unfolding ◌>>=◌
  auth_world s (ok u) w = refl
  auth_world s (err e) w = refl

  refused_name :
      (name pass : Bytes) (w : World) (u : User)
      → ((v : User)
          → find (λ x. eqb x.username name) w.db.users.rows ≡ some v
          → env.same_password v.password_hash pass ≡ false)
      → (validate env name pass w).0 ≢ ok u
  refused_name name pass w u h e =
      let (found, on, fits) = validate-eq_ok env name pass w u e in cc (h u found)

  handle-Stays :
      (c : Command) (s : Session) (w : World)
      → IsRefused env w.db.users.rows c
      → is_anonymous s ≡ true
      → Stays s w (handle env c s w).0 (handle env c s w).1
  unfolding handle handle_auth handle_from handle_data ◌>>=◌
  handle-Stays (authenticate server user pass) s w h a =
      let name = checked_name server user in
      record {
        anonymous =
            auth_kept s (validate env name pass w).0 (validate env name pass w).1
              (λ u. refused_name name pass w u h) a;
        same_db =
            ap (λ (v : World). v.db)
              (auth_world s (validate env name pass w).0 (validate env name pass w).1
                ∙ validate-tick env name pass w);
      }
  handle-Stays (mail from) s w h a = record { anonymous = rw a a; same_db = rw a refl }
  handle-Stays (rcpt to) s w h a = record { anonymous = a; same_db = refl }
  handle-Stays (data_read body) s w h a = record { anonymous = rw a a; same_db = rw a refl }
  handle-Stays reset s w h a = record { anonymous = a; same_db = refl }
  handle-Stays logout s w h a = record { anonymous = a; same_db = refl }

  -- Whatever a client sends in a session that starts anonymous, if none of its passwords fits the hash
  -- of the account under the name that it is given with, the database stays as it was.
  pub serve-refused :
      (commands : List Command) (s : Session) (w : World)
      → All (IsRefused env w.db.users.rows) commands
      → is_anonymous s ≡ true
      → (serve env commands s w).1.db ≡ w.db
  unfolding serve
  serve-refused [] s w h a = refl
  serve-refused (c ∷ rest) s w (h, hs) a =
      let step = handle-Stays c s w h a in
      let later =
        subst (λ (db : Database). All (IsRefused env db.users.rows) rest) (sym step.same_db) hs in
      serve-refused rest (kept s (handle env c s w).0) (handle env c s w).1 later step.anonymous
      ∙ step.same_db
