-- ===== src/System/Writes.antt =====
-- The statements of all parts that write, for a relation that looks at the packages and the queue only.
use smmail.Prelude.{ℕ, ◌≡◌, refl, Bool, Bytes, eqb, ℤ, pos, any, Bool-cases, inl, inr}
use smmail.Models.{User, UpstreamSmtp, PackagePlan, QueueItem}
use smmail.Models.Database.{Database, delete_rows}
use smmail.Runtime.{Env, Result, ok, err, exec}
use smmail.Runtime.Effects.{Steps, Steps-if}
use smmail.Runtime.Kept.{IsDatabaseOrder, On, On-exec, On-bind, On-statement, On-fail}
use smmail.Repo.Users
use smmail.Repo.Domains
use smmail.Repo.Events
use smmail.Repo.Queue
use smmail.Repo.Packages
use smmail.Repo.Smtps
use smmail.HttpApi.Forms.{Server, Assignment, OwnAssignment}
use smmail.HttpApi.Servers
use smmail.HttpApi.Effects.{Runs, runs_rules, read_rules}
use smmail.HttpApi.Handled.{Deletes}
use smmail.System.Kept.{AllWrites}

-- What such a relation has to keep.
pub record CoreWrites (D : Database → Database → Type 0) (env : Env) : Type 0 where
  pub free :
      (db db' : Database)
      → db'.package_plans ≡ db.package_plans
      → db'.outbound_queue ≡ db.outbound_queue
      → D db db'
  pub store_package : (p : PackagePlan) → Steps (On D) (Packages.create_or_update env p)
  pub set_default : (name : Bytes) → Steps (On D) (Packages.set_default env name)
  pub delete_package : (name : Bytes) → Steps (On D) (Packages.delete env name)
  pub mark_sent : (id : ℤ) → Steps (On D) (Queue.mark_sent env id)
  pub mark_retry : (id : ℤ) (e : Bytes) → Steps (On D) (Queue.mark_retry env id e)
  pub mark_failed : (id : ℤ) (e : Bytes) → Steps (On D) (Queue.mark_failed env id e)
  pub defer : (id : ℤ) (e : Bytes) (wait : ℤ) → Steps (On D) (Queue.defer env id e wait)
  pub enqueue : (item : QueueItem) → Steps (On D) (Queue.enqueue env item)
  -- A deletion from the queue.
  pub dropped :
      (p : QueueItem → Bool) (db : Database)
      → D db (record db { outbound_queue = delete_rows p db.outbound_queue })

module _ {D : Database → Database → Type 0} (order : IsDatabaseOrder D) (env : Env)
    (laws : CoreWrites D env) where
  -- A statement on another table.
  other :
      (f : ℕ → Database → Database)
      → ((now : ℕ) (db : Database) → (f now db).package_plans ≡ db.package_plans)
      → ((now : ℕ) (db : Database) → (f now db).outbound_queue ≡ db.outbound_queue)
      → Steps (On D) (exec env f)
  other f e k = On-exec order env f (λ now db. laws.free db (f now db) (e now db) (k now db))

  Deletes-On : (id : ℤ) → Deletes D env id
  unfolding Events.delete_all Events.delete_since_days Events.delete_date_range
      Queue.delete_pending_all Queue.delete_pending_since_days Queue.delete_pending_date_range
  Deletes-On id = record {
    events_all = other _ (λ now db. refl) (λ now db. refl);
    events_since =
        λ days. Steps-if _ _ _ (other _ (λ now db. refl) (λ now db. refl)) (On-fail order _);
    events_range = λ from to. other _ (λ now db. refl) (λ now db. refl);
    pending_all = On-exec order env _ (λ now db. laws.dropped _ db);
    pending_since = λ days.
        Steps-if _ _ _ (On-exec order env _ (λ now db. laws.dropped _ db)) (On-fail order _);
    pending_range = λ from to. On-exec order env _ (λ now db. laws.dropped _ db);
  }

  update-On : (id : ℤ) (u : User) → Steps (On D) (Users.update env id u)
  unfolding Users.update
  update-On id u = other _ (λ now db. refl) (λ now db. refl)

  create-On : (u : User) → Steps (On D) (Users.create env u)
  unfolding Users.create
  create-On u = On-statement order env _ (λ now db.
      elim (Bool-cases (any (λ (v : User). eqb v.username u.username) db.users.rows)) [
        | inl e ↦ rw e (laws.free db db refl refl)
        | inr e ↦ rw e (laws.free db _ refl refl)
      ])

  delete_hard-On : (id : ℤ) → Steps (On D) (Users.delete_hard env id)
  unfolding Users.delete_hard
  delete_hard-On id = On-bind order _ _ (other _ (λ now db. refl) (λ now db. refl)) (λ _.
      On-bind order _ _ (other _ (λ now db. refl) (λ now db. refl)) (λ _.
        On-bind order _ _ (other _ (λ now db. refl) (λ now db. refl)) (λ _.
          On-bind order _ _ (On-exec order env _ (λ now db. laws.dropped _ db))
            (λ _. other _ (λ now db. refl) (λ now db. refl)))))

  smtp-On : (s : UpstreamSmtp) → Steps (On D) (Smtps.create env s)
  unfolding Smtps.create
  smtp-On s = On-statement order env _ (λ now db. laws.free db _ refl refl)

  assign-On :
      (user_id smtp_id weight : ℤ) (enabled : Bool)
      → Steps (On D) (Smtps.assign_to_user env user_id smtp_id weight enabled)
  unfolding Smtps.assign_to_user
  assign-On user_id smtp_id weight enabled = other _ (λ now db. refl) (λ now db. refl)

  unassign-On : (user_id smtp_id : ℤ) → Steps (On D) (Smtps.unassign_from_user env user_id smtp_id)
  unfolding Smtps.unassign_from_user
  unassign-On user_id smtp_id = other _ (λ now db. refl) (λ now db. refl)

  delete_smtp-On : (smtp_id : ℤ) → Steps (On D) (Smtps.delete_smtp env smtp_id)
  unfolding Smtps.delete_smtp
  delete_smtp-On smtp_id =
      On-bind order _ _ (other _ (λ now db. refl) (λ now db. refl))
        (λ _. other _ (λ now db. refl) (λ now db. refl))

  create_smtp-Runs :
      (owner_user_id : ℤ) (form : Result Server)
      → Runs D (Servers.create_smtp env owner_user_id form)
  unfolding Servers.create_smtp
  create_smtp-Runs owner_user_id form =
      search (runs_rules, read_rules, order, smtp-On, assign-On) depth 14

  user_delete_smtp-Runs :
      (user_id : ℤ) (text : Bytes) → Runs D (Servers.user_delete_smtp env user_id text)
  unfolding Servers.user_delete_smtp
  user_delete_smtp-Runs user_id text =
      search (runs_rules, read_rules, order, delete_smtp-On) depth 12

  turn_rotation_on-Runs :
      (user_id : ℤ) (r : Result User) → Runs D (Servers.turn_rotation_on env user_id r)
  unfolding Servers.turn_rotation_on
  turn_rotation_on-Runs user_id (ok u) = search (runs_rules, order, update-On)
  turn_rotation_on-Runs user_id (err e) = search (runs_rules, order)

  user_assign_smtp-Runs :
      (user_id : ℤ) (form : Result OwnAssignment)
      → Runs D (Servers.user_assign_smtp env user_id form)
  unfolding Servers.user_assign_smtp
  user_assign_smtp-Runs user_id form =
      search (runs_rules, read_rules, order, assign-On, turn_rotation_on-Runs) depth 18

  assign_smtp_to_user-Runs :
      (text : Bytes) (form : Result Assignment) → Runs D (Servers.assign_smtp_to_user env text form)
  unfolding Servers.assign_smtp_to_user
  assign_smtp_to_user-Runs text form = search (runs_rules, read_rules, order, assign-On) depth 14

  pub all_writes : AllWrites D env
  unfolding Events.create Users.apply_package Users.set_password Domains.upsert
  all_writes = record {
    mail = record {
      mark_sent = laws.mark_sent;
      mark_retry = laws.mark_retry;
      mark_failed = laws.mark_failed;
      defer = laws.defer;
      enqueue = laws.enqueue;
      create = λ e. other _ (λ now db. refl) (λ now db. refl);
    };
    user = λ id. record {
      others = record {
        deletes = Deletes-On id;
        update = update-On id;
        apply_package = λ p. other _ (λ now db. refl) (λ now db. refl);
        unassign = unassign-On id;
        delete_smtp = user_delete_smtp-Runs id;
      };
      create_smtp = create_smtp-Runs id;
      assign_smtp = user_assign_smtp-Runs id;
    };
    admin = record {
      deletes = Deletes-On;
      create = create-On;
      update = update-On;
      apply_package = λ id p. other _ (λ now db. refl) (λ now db. refl);
      set_password = λ id hash. other _ (λ now db. refl) (λ now db. refl);
      delete_hard = delete_hard-On;
      upsert = λ id domain limit ms. other _ (λ now db. refl) (λ now db. refl);
      store_package = laws.store_package;
      set_default = laws.set_default;
      delete_package = laws.delete_package;
      unassign = unassign-On;
      create_smtp = create_smtp-Runs (pos 0);
      delete_smtp = delete_smtp-On;
      assign_smtp = assign_smtp_to_user-Runs;
    };
  }
