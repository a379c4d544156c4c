-- ===== src/HttpApi/Accounts/Changed.antt =====
-- An account whose password the admin has changed.
use smmail.Prelude.{
  ℕ, ◌≡◌, ◌↔◌, refl, sym, ap, subst, ◌∙◌, Bool, true, Bytes, codes, eqb, ℤ, eqb_ℤ, eqb_ℤ_iff, List,
  [], ◌∷◌, find, update, none, some, Bool-cases, inl, inr, arith,
}
use smmail.Models.{User}
use smmail.Runtime.{Env, World, ok, timestamp}
use smmail.Runtime.Effects.{exec-eq_ok}
use smmail.Repo.Users
use smmail.Service.Auth
use smmail.Service.Auth.{validate}
use smmail.Service.Auth.Valid.{validate_iff}
use smmail.HttpApi.Values.{parse_int64}
use smmail.HttpApi.Reply.{
  Site, Answer, go, H, Response, ok_done, give, call, always, server_error, ◌>>=◌, ◌>>◌,
}
use smmail.HttpApi.Accounts.{set_password}
use smmail.HttpApi.Guards.Opened.{bind-eq_go, call-eq_go}

module _ {ℓ} {A : Type ℓ} (p q : A → Bool) (f : A → A) where
  -- The row that is found is still found when it is changed.
  find-update_found :
      (xs : List A) (x : A)
      → ((y : A) → p (f y) ≡ p y)
      → q x ≡ true
      → find p xs ≡ some x
      → find p (update q f xs) ≡ some (f x)
  find-update_found [] x same h e = absurd cc
  find-update_found (y ∷ ys) x same h e = elim (Bool-cases (p y)) [
    | inl k ↦
        let here : y ≡ x = ground (arith, k, e) in
        let chosen = subst (λ (z : A). q z ≡ true) (sym here) h in
        rw (chosen, same y, k) (ap (λ (z : A). some (f z)) here)
    | inr k ↦ elim (Bool-cases (q y)) [
      | inl l ↦ rw (l, same y, k) (find-update_found ys x same h (rw k at e))
      | inr l ↦ rw (l, k) (find-update_found ys x same h (rw k at e))
    ]
  ]

module _ (env : Env) where
  -- The account with the new hash.
  abbrev pub rehashed : Bytes → ℕ → User → User
  rehashed hash now u = record u { password_hash = hash; updated_at = now }

  set_password-rows :
      (id : ℤ) (hash : Bytes) (w : World)
      → (Users.set_password env id hash w).0 ≡ ok tt
      → (Users.set_password env id hash w).1.db.users.rows
        ≡ update (λ v. eqb_ℤ v.id id) (rehashed hash (timestamp env w.ticks)) w.db.users.rows
  unfolding Users.set_password
  set_password-rows id hash w h = ap (λ (v : World). v.db.users.rows) (exec-eq_ok env _ w h)

  -- The handler behind its two tests.
  changed : Bytes → ℤ → H Response
  changed password id = do
    hash ← call (always 500 (codes "password hash failed")) (Auth.hash_password env password)
    call server_error (Users.set_password env id hash)
    give ok_done

  set_password-changed :
      (text password : Bytes) (id : ℤ) (s : Site)
      → parse_int64 text ≡ some id
      → set_password env text (ok password) s ≡ changed password id s
  unfolding set_password changed give ◌>>=◌
  set_password-changed text password id s e = rw e refl

  record Changes (password : Bytes) (id : ℤ) (s s' : Site) : Type 0 where
    hash : Bytes
    ticks : ℕ
    now : ℕ
    hashed : env.hash_password ticks password ≡ ok hash
    rows :
        s'.world.db.users.rows
        ≡ update (λ v. eqb_ℤ v.id id) (rehashed hash now) s.world.db.users.rows

  changed-Changes :
      (password : Bytes) (id : ℤ) (s : Site)
      → (changed password id s).0 ≡ go ok_done
      → Changes password id s (changed password id s).1
  unfolding changed ◌>>=◌ give call Auth.hash_password
  changed-Changes password id s h =
      let m = call (always 500 (codes "password hash failed")) (Auth.hash_password env password) in
      let k = λ (hash : Bytes). call server_error (Users.set_password env id hash) in
      let out = λ (x : Unit {0}). give ok_done in
      let (hash, eh, hh, wh) = bind-eq_go m (λ hash. k hash >>= out) s ok_done h in
      let (x, ex, hx, wx) = bind-eq_go (k hash) out (m s).1 ok_done hh in
      record {
        hash = hash;
        ticks = s.world.ticks;
        now = timestamp env (m s).1.world.ticks;
        hashed =
            call-eq_go env (always 500 (codes "password hash failed"))
              (Auth.hash_password env password) s hash eh;
        rows =
            ap (λ (t : Site). t.world.db.users.rows) (wh ∙ wx)
            ∙ set_password-rows id hash (m s).1.world
                (call-eq_go env server_error (Users.set_password env id hash) (m s).1 tt ex);
      }

  -- After the admin has set the password of the enabled account that is found under a name, and as long
  -- as the accounts stay so, the account gets in by exactly the passwords that fit the hash which
  -- bcrypt has made of the new one, where the query does not fail.
  pub validate-set_password :
      (text password name : Bytes) (id : ℤ) (s : Site) (w : World) (u : User)
      → parse_int64 text ≡ some id
      → find (λ v. eqb v.username name) s.world.db.users.rows ≡ some u
      → u.id ≡ id
      → u.enabled ≡ true
      → (set_password env text (ok password) s).0 ≡ go ok_done
      → w.db.users.rows ≡ (set_password env text (ok password) s).1.world.db.users.rows
      → env.fault w.ticks ≡ none
      → (hash : Bytes) × (t now : ℕ) × (env.hash_password t password ≡ ok hash)
        × ((given : Bytes)
            → ((validate env name given w).0 ≡ ok (rehashed hash now u))
              ↔ (env.same_password hash given ≡ true))
  validate-set_password text password name id s w u parsed found own on h rows calm =
      let same = set_password-changed text password id s parsed in
      let c =
        changed-Changes password id s (ap (λ (r : Answer Response × Site). r.0) (sym same) ∙ h) in
      let u' = rehashed c.hash c.now u in
      let stored : find (λ v. eqb v.username name) w.db.users.rows ≡ some u' =
        ap (find (λ v. eqb v.username name))
          (rows ∙ ap (λ (r : Answer Response × Site). r.1.world.db.users.rows) same ∙ c.rows)
        ∙ find-update_found _ (λ v. eqb_ℤ v.id id) (rehashed c.hash c.now) s.world.db.users.rows u
            (λ v. refl) ((eqb_ℤ_iff u.id id).1 own) found in
      (
        c.hash,
        c.ticks,
        c.now,
        c.hashed,
        λ given.
            let both = validate_iff env name given w u' calm in
            ((λ e. (both.0 e).2), (λ fits. both.1 (stored, on, fits))),
      )
