-- ===== src/HttpApi/Sound/Writes.antt =====
-- Every request keeps the ownership of the servers.
use smmail.Prelude.{
  ℕ, ◌≡◌, refl, Bool, true, Bytes, eqb, ℤ, eqb_ℤ, All-append, All-filter, All-update, find, any,
  Bool-cases, inl, inr, arith,
}
use smmail.Models.{User, UpstreamSmtp, PackagePlan}
use smmail.Models.Database.{Database, insert_row, update_rows}
use smmail.Runtime.{Env, exec}
use smmail.Runtime.Effects.{Steps, Steps-if}
use smmail.Runtime.Kept.{IsDatabaseOrder, On, On-exec, On-two, On-bind, On-statement, On-fail}
use smmail.Repo.Users
use smmail.Repo.Domains
use smmail.Repo.Events
use smmail.Repo.Queue
use smmail.Repo.Packages
use smmail.Repo.Smtps
use smmail.Repo.Smtps.{is_assignment}
use smmail.HttpApi.Effects.{named-On}
use smmail.HttpApi.Handled.{Deletes}
use smmail.HttpApi.Sound.{IsSound, has_id, suits}
use smmail.HttpApi.Sound.Tables.{
  insert-IsOwned, filter-IsOwned, delete-IsOwned, assigned, assigned-IsOwned,
}

pub record Sounder (db db' : Database) : Type 0 where
  pub sound : IsSound db → IsSound db'

pub Sounder-order : IsDatabaseOrder Sounder
Sounder-order = record {
  same = λ db. record { sound = λ h. h };
  chain = λ a b c p q. record { sound = λ h. q.sound (p.sound h) };
}

-- A statement that leaves the three tables alone.
abbrev elsewhere : {db : Database} {db' : Database} → (IsSound db → IsSound db') → Sounder db db'
elsewhere f = record { sound = f }

module _ (env : Env) where
  untouched :
      (f : ℕ → Database → Database)
      → ((now : ℕ) (db : Database) → (f now db).users.rows ≡ db.users.rows)
      → ((now : ℕ) (db : Database) → (f now db).upstream_smtps ≡ db.upstream_smtps)
      → ((now : ℕ) (db : Database)
          → (f now db).user_smtp_assignments.rows ≡ db.user_smtp_assignments.rows)
      → Steps (On Sounder) (exec env f)
  untouched f users smtps assignments = On-exec Sounder-order env f (λ now db. record {
    sound = λ h. record {
      positive = rw (users now db) h.positive;
      servers = rw (smtps now db, assignments now db) h.servers;
    };
  })

  pub Deletes-Sounder : (id : ℤ) → Deletes Sounder env id
  unfolding Events.delete_all Events.delete_since_days Events.delete_date_range
      Queue.delete_pending_all Queue.delete_pending_since_days Queue.delete_pending_date_range
  Deletes-Sounder id = record {
    events_all = untouched _ (λ now db. refl) (λ now db. refl) (λ now db. refl);
    events_since = λ days.
        Steps-if _ _ _ (untouched _ (λ now db. refl) (λ now db. refl) (λ now db. refl))
          (On-fail Sounder-order _);
    events_range = λ from to. untouched _ (λ now db. refl) (λ now db. refl) (λ now db. refl);
    pending_all = untouched _ (λ now db. refl) (λ now db. refl) (λ now db. refl);
    pending_since = λ days.
        Steps-if _ _ _ (untouched _ (λ now db. refl) (λ now db. refl) (λ now db. refl))
          (On-fail Sounder-order _);
    pending_range = λ from to. untouched _ (λ now db. refl) (λ now db. refl) (λ now db. refl);
  }

  -- An update of accounts.
  on_users :
      (p : User → Bool) (f : ℕ → User → User)
      → ((now : ℕ) (u : User) → (f now u).id ≡ u.id)
      → Steps
          (On Sounder)
          (exec env (λ now db. record db { users = update_rows p (f now) db.users }))
  on_users p f same = On-exec Sounder-order env _ (λ now db. record {
    sound = λ h. record {
      positive = All-update _ p (f now) db.users.rows (λ u k. rw (same now u) k) h.positive;
      servers = h.servers;
    };
  })

  pub update-Sounder : (id : ℤ) (u : User) → Steps (On Sounder) (Users.update env id u)
  unfolding Users.update
  update-Sounder id u = on_users (λ v. eqb_ℤ v.id id) _ (λ now v. refl)

  pub apply_package-Sounder :
      (id : ℤ) (p : PackagePlan) → Steps (On Sounder) (Users.apply_package env id p)
  unfolding Users.apply_package
  apply_package-Sounder id p = on_users (λ v. eqb_ℤ v.id id) _ (λ now v. refl)

  pub set_password-Sounder :
      (id : ℤ) (hash : Bytes) → Steps (On Sounder) (Users.set_password env id hash)
  unfolding Users.set_password
  set_password-Sounder id hash = on_users (λ v. eqb_ℤ v.id id) _ (λ now v. refl)

  pub create-Sounder : (u : User) → Steps (On Sounder) (Users.create env u)
  unfolding Users.create
  create-Sounder u = On-statement Sounder-order env _ (λ now db.
      elim (Bool-cases (any (λ (v : User). eqb v.username u.username) db.users.rows)) [
        | inl e ↦ rw e (record { sound = λ h. h })
        | inr e ↦ rw e (record {
          sound = λ h. record {
            positive = All-append _ db.users.rows _ h.positive (ground arith, tt);
            servers = h.servers;
          };
        })
      ])

  pub unassign-Sounder :
      (id smtp_id : ℤ) → Steps (On Sounder) (Smtps.unassign_from_user env id smtp_id)
  unfolding Smtps.unassign_from_user
  unassign-Sounder id smtp_id = On-exec Sounder-order env _ (λ now db. record {
    sound = λ h. record {
      positive = h.positive;
      servers = filter-IsOwned _ db.upstream_smtps db.user_smtp_assignments.rows h.servers;
    };
  })

  pub delete_hard-Sounder : (id : ℤ) → Steps (On Sounder) (Users.delete_hard env id)
  unfolding Users.delete_hard
  delete_hard-Sounder id =
      On-bind Sounder-order _ _
        (On-exec Sounder-order env _ (λ now db. record {
          sound = λ h. record {
            positive = h.positive;
            servers = filter-IsOwned _ db.upstream_smtps db.user_smtp_assignments.rows h.servers;
          };
        }))
        (λ _.
          On-bind Sounder-order _ _ (untouched _ (λ now db. refl) (λ now db. refl) (λ now db. refl))
            (λ _.
              On-bind Sounder-order _ _
                (untouched _ (λ now db. refl) (λ now db. refl) (λ now db. refl))
                (λ _.
                  On-bind Sounder-order _ _
                    (untouched _ (λ now db. refl) (λ now db. refl) (λ now db. refl))
                    (λ _. On-exec Sounder-order env _ (λ now db. record {
                      sound = λ h. record {
                        positive = All-filter _ _ db.users.rows h.positive;
                        servers = h.servers;
                      };
                    })))))

  pub upsert-Sounder :
      (id : ℤ) (domain : Bytes) (limit ms : ℤ)
      → Steps (On Sounder) (Domains.upsert env id domain limit ms)
  unfolding Domains.upsert
  upsert-Sounder id domain limit ms = untouched _ (λ now db. refl) (λ now db. refl) (λ now db. refl)

  pub store_package-Sounder :
      (p : PackagePlan) → Steps (On Sounder) (Packages.create_or_update env p)
  unfolding Packages.create_or_update
  store_package-Sounder p = untouched _ (λ now db. refl) (λ now db. refl) (λ now db. refl)

  pub set_default-Sounder : (name : Bytes) → Steps (On Sounder) (Packages.set_default env name)
  unfolding Packages.set_default
  set_default-Sounder name =
      On-bind Sounder-order _ _ (untouched _ (λ now db. refl) (λ now db. refl) (λ now db. refl))
        (λ _. untouched _ (λ now db. refl) (λ now db. refl) (λ now db. refl))

  pub delete_package-Sounder : (name : Bytes) → Steps (On Sounder) (Packages.delete env name)
  unfolding Packages.delete
  delete_package-Sounder name = On-bind Sounder-order _ _ (named-On Sounder-order env name) (λ p.
      Steps-if p.is_default _ _ (On-fail Sounder-order _)
        (untouched _ (λ now db. refl) (λ now db. refl) (λ now db. refl)))

  pub delete_smtp-Sounder : (smtp_id : ℤ) → Steps (On Sounder) (Smtps.delete_smtp env smtp_id)
  unfolding Smtps.delete_smtp
  delete_smtp-Sounder smtp_id =
      On-two Sounder-order env _ _
        (λ now db. record {
          sound = λ h. record {
            positive = h.positive;
            servers = filter-IsOwned _ db.upstream_smtps db.user_smtp_assignments.rows h.servers;
          };
        })
        (λ now later db. record {
          sound = λ h. record {
            positive = h.positive;
            servers =
                delete-IsOwned smtp_id db.upstream_smtps db.user_smtp_assignments.rows h.servers;
          };
        })

  pub assigned-Sounder :
      (user_id smtp_id weight : ℤ) (enabled : Bool) (now : ℕ) (db : Database)
      → (IsSound db → suits user_id (find (has_id smtp_id) db.upstream_smtps.rows) ≡ true)
      → Sounder db (record db {
        user_smtp_assignments =
            assigned user_id smtp_id weight enabled now db.user_smtp_assignments;
      })
  assigned-Sounder user_id smtp_id weight enabled now db k = record {
    sound = λ h. record {
      positive = h.positive;
      servers =
          assigned-IsOwned user_id smtp_id weight enabled now db.upstream_smtps
            db.user_smtp_assignments (k h) h.servers;
    };
  }

  pub created-Sounder :
      (row : UpstreamSmtp) (now : ℕ) (db : Database)
      → Sounder db (record db {
        upstream_smtps =
            insert_row (λ id. record row { id = id; created_at = now }) db.upstream_smtps;
      })
  created-Sounder row now db = record {
    sound = λ h. record {
      positive = h.positive;
      servers =
          insert-IsOwned (λ id. record row { id = id; created_at = now }) db.upstream_smtps
            db.user_smtp_assignments.rows (λ id. refl) h.servers;
    };
  }
