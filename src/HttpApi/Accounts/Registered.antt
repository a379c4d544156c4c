-- ===== src/HttpApi/Accounts/Registered.antt =====
-- Who registers can log in.
use smmail.Prelude.{
  ℕ, suc, ◌≡◌, refl, sym, ap, subst, ◌∙◌, Bool, true, false, Bytes, codes, eqb, eqb_refl, ℤ, pos,
  [], ◌∷◌, ◌++◌, any, count-none, find-last, none, some, Option-cases, Bool-cases, inl, inr, arith,
}
use smmail.Models.{User, PackagePlan}
use smmail.Models.Database.{insert_row}
use smmail.Runtime.{Env, World, Result, ok, err, message, tick, timestamp, statement}
use smmail.Repo.Users
use smmail.Repo.Packages
use smmail.Service.Auth
use smmail.Service.Auth.{validate}
use smmail.Service.Auth.Valid.{validate_iff}
use smmail.HttpApi.Forms.{Registration}
use smmail.HttpApi.Reply.{Site, go, registered, ok_created, give, call, always, bad_request, ◌>>=◌}
use smmail.HttpApi.Accounts.{registered_user, user_register}
use smmail.HttpApi.Guards.Opened.{bind-eq_go, call-eq_go}

abbrev is_called : Bytes → User → Bool
is_called name u = eqb u.username name

module _ (env : Env) where
  -- What a creation that returns has done.
  record Created (u : User) (w w' : World) (id : ℤ) : Type 0 where
    now : ℕ
    new_name : any (is_called u.username) w.db.users.rows ≡ false
    rows :
        w'.db.users.rows
        ≡ w.db.users.rows ++ record u { id = id; created_at = now; updated_at = now } ∷ []

  inserted : User → World → World
  inserted u w = record (tick w) {
    db = record w.db {
      users =
          insert_row
            (λ id. record u {
              id = id;
              created_at = timestamp env w.ticks;
              updated_at = timestamp env w.ticks;
            })
            w.db.users;
    };
  }

  create-inserted :
      (u : User) (w : World)
      → env.fault w.ticks ≡ none
      → any (is_called u.username) w.db.users.rows ≡ false
      → Users.create env u w ≡ (ok (pos (suc w.db.users.last_id)), inserted u w)
  unfolding Users.create statement inserted
  create-inserted u w e k = rw (e, k) refl

  create-taken :
      (u : User) (w : World)
      → env.fault w.ticks ≡ none
      → any (is_called u.username) w.db.users.rows ≡ true
      → (Users.create env u w).0 ≡ err (message (codes "UNIQUE constraint failed: users.username"))
  unfolding Users.create statement
  create-taken u w e k = rw (e, k) refl

  create-fault :
      (u : User) (w : World) (m : Bytes)
      → env.fault w.ticks ≡ some m
      → (Users.create env u w).0 ≡ err (message m)
  unfolding Users.create statement
  create-fault u w m e = rw e refl

  create-Created :
      (u : User) (w : World) (id : ℤ)
      → (Users.create env u w).0 ≡ ok id
      → Created u w (Users.create env u w).1 id
  unfolding inserted
  create-Created u w id h = elim (Option-cases (env.fault w.ticks)) [
    | inl e ↦ elim (Bool-cases (any (is_called u.username) w.db.users.rows)) [
      | inl k ↦ ground (arith, h, create-taken u w e k)
      | inr k ↦ record {
        now = timestamp env w.ticks;
        new_name = k;
        rows = rw (create-inserted u w e k) (
            ap
              (λ (i : ℤ).
                w.db.users.rows
                ++ record u {
                  id = i;
                  created_at = timestamp env w.ticks;
                  updated_at = timestamp env w.ticks;
                }
                  ∷ [])
              (ground (arith, h, ap (λ (x : Result ℤ × World). x.0) (create-inserted u w e k))));
      }
    ]
    | inr (m, e) ↦ ground (arith, h, create-fault u w m e)
  ]

  -- What `userRegister` has done when it gives an answer.
  record Registers (req : Registration) (s s' : Site) (id : ℤ) (name : Bytes) : Type 0 where
    plan : PackagePlan
    hash : Bytes
    ticks : ℕ
    before : World
    named : plan.name ≡ name
    hashed : env.hash_password ticks req.password ≡ ok hash
    created : Created (registered_user req hash plan) before s'.world id

  answered-id :
      (i id : ℤ) (name plan : Bytes)
      → go (ok_created (registered i plan)) ≡ go (ok_created (registered id name))
      → i ≡ id
  answered-id i id name plan h = ground (arith, h)

  answered-plan :
      (i id : ℤ) (name plan : Bytes)
      → go (ok_created (registered i plan)) ≡ go (ok_created (registered id name))
      → plan ≡ name
  answered-plan i id name plan h = ground (arith, h)

  user_register-Registers :
      (req : Registration) (s : Site) (id : ℤ) (name : Bytes)
      → (user_register env (ok req) s).0 ≡ go (ok_created (registered id name))
      → Registers req s (user_register env (ok req) s).1 id name
  unfolding user_register ◌>>=◌ give call Auth.hash_password
  user_register-Registers req s id name h =
      let m =
        call (always 500 (codes "password hash failed")) (Auth.hash_password env req.password) in
      let n =
        call (always 500 (codes "default package not configured")) (Packages.get_default env) in
      let k = λ (hash : Bytes) (pkg : PackagePlan).
        call bad_request (Users.create env (registered_user req hash pkg)) in
      let out = λ (pkg : PackagePlan) (i : ℤ). give (ok_created (registered i pkg.name)) in
      let (hash, eh, hh, wh) = bind-eq_go m (λ hash. n >>= λ pkg. k hash pkg >>= out pkg) s _ h in
      let (pkg, ep, hp, wp) = bind-eq_go n (λ pkg. k hash pkg >>= out pkg) (m s).1 _ hh in
      let (i, ei, hi, wi) = bind-eq_go (k hash pkg) (out pkg) (n (m s).1).1 _ hp in
      let row = registered_user req hash pkg in
      let w = (n (m s).1).1.world in
      record {
        plan = pkg;
        hash = hash;
        ticks = s.world.ticks;
        before = w;
        named = answered-plan i id name pkg.name hi;
        hashed =
            call-eq_go env (always 500 (codes "password hash failed"))
              (Auth.hash_password env req.password) s hash eh;
        created =
            subst (λ (x : Site). Created row w x.world id) (sym (wh ∙ (wp ∙ wi)))
              (subst (λ (j : ℤ). Created row w (Users.create env row w).1 j)
                (answered-id i id name pkg.name hi)
                (create-Created row w i
                  (call-eq_go env bad_request (Users.create env row) (n (m s).1).1 i ei)));
      }

  -- A user who has registered is then validated under the id of the answer, and has the plan of the
  -- answer, if bcrypt takes a password for the hash that it has made of it, and the query does not
  -- fail.
  pub validate-user_register :
      (req : Registration) (s : Site) (w : World) (id : ℤ) (plan : Bytes)
      → ((t : ℕ) (hash : Bytes)
          → env.hash_password t req.password ≡ ok hash
          → env.same_password hash req.password ≡ true)
      → (user_register env (ok req) s).0 ≡ go (ok_created (registered id plan))
      → w.db.users.rows ≡ (user_register env (ok req) s).1.world.db.users.rows
      → env.fault w.ticks ≡ none
      → (u : User) × ((validate env req.username req.password w).0 ≡ ok u)
        × (u.id ≡ id)
        × (u.plan_name ≡ plan)
  validate-user_register req s w id plan bcrypt h same calm =
      let r = user_register-Registers req s id plan h in
      let row : User = record (registered_user req r.hash r.plan) {
        id = id;
        created_at = r.created.now;
        updated_at = r.created.now;
      } in
      (
        row,
        (validate_iff env req.username req.password w row calm).1 (
          rw (same ∙ r.created.rows) (
              find-last (is_called req.username) r.before.db.users.rows row
                (count-none (is_called req.username) r.before.db.users.rows r.created.new_name)
                (eqb_refl req.username)),
          refl,
          bcrypt r.ticks r.hash r.hashed,
        ),
        refl,
        r.named,
      )
