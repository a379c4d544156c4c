-- ===== src/Service/Auth/Valid.antt =====
-- Who gets in.
use smmail.Prelude.{
  ◌≡◌, refl, Bool, true, false, Bytes, none, some, find, eqb, ap, subst, ◌∙◌, if◌then◌else◌,
}
use smmail.Models.{User}
use smmail.Runtime.{Env, World, Error, message, no_rows, Result, ok, err, pure, fail, ◌>>=◌, tick}
use smmail.Runtime.Effects.{query_row-tick, query_row-eq_ok, query_row_ok}
use smmail.Repo.Users
use smmail.Service.Auth.{validate, check}

module _ (env : Env) where
  chosen-world :
      {A : Type 0} (b c : Bool) (a : A) (e f : Error) (w : World)
      → ((if b then (if c then pure a else fail e) else fail f) w).1 ≡ w
  unfolding ◌>>=◌
  chosen-world true true a e f w = refl
  chosen-world true false a e f w = refl
  chosen-world false c a e f w = refl

  chosen-eq_ok :
      {A : Type 0} (b c : Bool) (a u : A) (e f : Error) (w : World)
      → ((if b then (if c then pure a else fail e) else fail f) w).0 ≡ ok u
      → (a ≡ u) × (b ≡ true) × (c ≡ true)
  unfolding ◌>>=◌
  chosen-eq_ok true true a u e f w h = (cc, refl, refl)
  chosen-eq_ok true false a u e f w h = cc
  chosen-eq_ok false c a u e f w h = cc

  check-world : (p : Bytes) (r : Result User) (w : World) → (check env p r w).1 ≡ w
  unfolding check ◌>>=◌
  check-world p (err no_rows) w = refl
  check-world p (err (message m)) w = refl
  check-world p (ok u) w = chosen-world u.enabled (env.same_password u.password_hash p) u _ _ w

  check-eq_ok :
      (p : Bytes) (r : Result User) (w : World) (u : User)
      → (check env p r w).0 ≡ ok u
      → (r ≡ ok u) × (u.enabled ≡ true) × (env.same_password u.password_hash p ≡ true)
  unfolding check ◌>>=◌
  check-eq_ok p (err no_rows) w u h = cc
  check-eq_ok p (err (message m)) w u h = cc
  check-eq_ok p (ok v) w u h =
      let (same, on, fits) =
        chosen-eq_ok v.enabled (env.same_password v.password_hash p) v u _ _ w h in
      (
        ap (λ x. ok x) same,
        subst (λ x. x.enabled ≡ true) same on,
        subst (λ x. env.same_password x.password_hash p ≡ true) same fits,
      )

  -- Only the clock moves.
  pub validate-tick :
      (name password : Bytes) (w : World) → (validate env name password w).1 ≡ tick w
  unfolding validate Users.get_by_username ◌>>=◌
  validate-tick name password w =
      check-world password (Users.get_by_username env name w).0 (Users.get_by_username env name w).1
      ∙ query_row-tick env (λ now db. find (λ u. eqb u.username name) db.users.rows) w

  -- The user that gets in is the one with this name, is enabled, and has a hash that the password
  -- fits.
  pub validate-eq_ok :
      (name password : Bytes) (w : World) (u : User)
      → (validate env name password w).0 ≡ ok u
      → (find (λ v. eqb v.username name) w.db.users.rows ≡ some u)
        × (u.enabled ≡ true)
        × (env.same_password u.password_hash password ≡ true)
  unfolding validate Users.get_by_username ◌>>=◌
  validate-eq_ok name password w u h =
      let (found, on, fits) =
        check-eq_ok password (Users.get_by_username env name w).0
          (Users.get_by_username env name w).1 u h in
      (
        query_row-eq_ok env (λ now db. find (λ v. eqb v.username name) db.users.rows) w u found,
        on,
        fits,
      )

  chosen-ok :
      {A : Type 0} (b c : Bool) (a : A) (e f : Error) (w : World)
      → b ≡ true
      → c ≡ true
      → ((if b then (if c then pure a else fail e) else fail f) w).0 ≡ ok a
  unfolding ◌>>=◌
  chosen-ok true true a e f w p q = refl
  chosen-ok true false a e f w p q = cc
  chosen-ok false c a e f w p q = cc

  check-ok :
      (p : Bytes) (w : World) (u : User)
      → u.enabled ≡ true
      → env.same_password u.password_hash p ≡ true
      → (check env p (ok u) w).0 ≡ ok u
  unfolding check
  check-ok p w u on fits = chosen-ok u.enabled (env.same_password u.password_hash p) u _ _ w on fits

  -- Where the query does not fail, `Validate` returns exactly the user with this name, provided that
  -- the account is enabled and the password fits its hash.
  pub validate_iff :
      (name password : Bytes) (w : World) (u : User)
      → env.fault w.ticks ≡ none
      → ((validate env name password w).0 ≡ ok u
          → (find (λ v. eqb v.username name) w.db.users.rows ≡ some u)
            × (u.enabled ≡ true)
            × (env.same_password u.password_hash password ≡ true))
        × ((find (λ v. eqb v.username name) w.db.users.rows ≡ some u)
              × (u.enabled ≡ true)
              × (env.same_password u.password_hash password ≡ true)
            → (validate env name password w).0 ≡ ok u)
  unfolding validate Users.get_by_username ◌>>=◌
  validate_iff name password w u calm = (
    validate-eq_ok name password w u,
    λ (found, on, fits).
        ap (λ (x : Result User × World). (check env password x.0 x.1).0)
          (query_row_ok env (λ now db. find (λ v. eqb v.username name) db.users.rows) w u calm
            found)
        ∙ check-ok password (tick w) u on fits,
  )
