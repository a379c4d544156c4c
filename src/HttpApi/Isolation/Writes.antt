-- ===== src/HttpApi/Isolation/Writes.antt =====
-- The statements of a user's requests, seen from another user.
use smmail.Prelude.{
  ℕ, ◌≡◌, refl, Bool, true, false, ◌&&◌, leb, ◌-◌, ◌*◌, pos_part, codes, ◌++◌, ℤ, pos, eqb_ℤ,
  is_positive, filter, any, if◌then◌else◌, Bool-cases, inl, inr, filter-filter_other,
  filter-update_other, filter-insert_other, arith,
}
use smmail.Models.{
  User, PackagePlan, MailEvent, QueueItem, UpstreamSmtp, UserSmtpAssignment, is_pending,
}
use smmail.Models.Database.{Table, update_rows, delete_rows}
use smmail.Runtime.{Env, exec}
use smmail.Runtime.Effects.{Steps, Steps-if}
use smmail.Runtime.Kept.{On, On-exec, On-fail, On-statement}
use smmail.Repo.Users
use smmail.Repo.Events
use smmail.Repo.Events.{seconds_per_day, between}
use smmail.Repo.Queue
use smmail.Repo.Smtps
use smmail.Repo.Smtps.{is_assignment}
use smmail.HttpApi.Handled.{Deletes}
use smmail.HttpApi.Isolation.{SameFor, SameFor-order, other_user, selects-event, selects-item}
use smmail.HttpApi.Sound.Tables.{assigned}

module _ (env : Env) (id v : ℤ) (other : eqb_ℤ id v ≡ false) where
  on_users :
      (f : ℕ → User → User)
      → ((now : ℕ) (u : User) → (f now u).id ≡ u.id)
      → Steps (On (SameFor v)) (
          exec env
            (λ now db. record db { users = update_rows (λ u. eqb_ℤ u.id id) (f now) db.users }))
  on_users f same = On-exec (SameFor-order v) env _ (λ now db. record {
    events_same = refl;
    queue_same = refl;
    servers_same = refl;
    assignments_same = refl;
    plans_same = refl;
    rules_same = refl;
    users_same =
        filter-update_other (λ (u : User). eqb_ℤ u.id v) (λ u. eqb_ℤ u.id id) (f now) db.users.rows
          (λ u k. other_user id v u.id other k) (λ u. rw (same now u) refl);
  })

  pub update-SameFor : (u : User) → Steps (On (SameFor v)) (Users.update env id u)
  unfolding Users.update
  update-SameFor u = on_users _ (λ now u. refl)

  pub apply_package-SameFor :
      (p : PackagePlan) → Steps (On (SameFor v)) (Users.apply_package env id p)
  unfolding Users.apply_package
  apply_package-SameFor p = on_users _ (λ now u. refl)

  pub create-SameFor :
      (s : UpstreamSmtp)
      → eqb_ℤ s.owner_user_id v ≡ false
      → Steps (On (SameFor v)) (Smtps.create env s)
  unfolding Smtps.create
  create-SameFor s h = On-statement (SameFor-order v) env _ (λ now db. record {
    users_same = refl;
    events_same = refl;
    queue_same = refl;
    assignments_same = refl;
    plans_same = refl;
    rules_same = refl;
    servers_same =
        filter-insert_other (λ (x : UpstreamSmtp). eqb_ℤ x.owner_user_id v) db.upstream_smtps.rows _
          h;
  })

  is_assignment-user :
      (smtp_id : ℤ) (a : UserSmtpAssignment)
      → is_assignment id smtp_id a ≡ true
      → eqb_ℤ a.user_id id ≡ true
  is_assignment-user smtp_id a h = ground (arith, h)

  pub unassign-SameFor :
      (smtp_id : ℤ) → Steps (On (SameFor v)) (Smtps.unassign_from_user env id smtp_id)
  unfolding Smtps.unassign_from_user
  unassign-SameFor smtp_id = On-exec (SameFor-order v) env _ (λ now db. record {
    users_same = refl;
    events_same = refl;
    queue_same = refl;
    servers_same = refl;
    plans_same = refl;
    rules_same = refl;
    assignments_same =
        filter-filter_other (λ (a : UserSmtpAssignment). eqb_ℤ a.user_id v)
          (is_assignment id smtp_id) db.user_smtp_assignments.rows
          (λ a k. other_user id v a.user_id other (is_assignment-user smtp_id a k));
  })

  assigned-other :
      (smtp_id weight : ℤ) (enabled : Bool) (now : ℕ) (t : Table UserSmtpAssignment)
      → filter
          (λ (a : UserSmtpAssignment). eqb_ℤ a.user_id v)
          (assigned id smtp_id weight enabled now t).rows
        ≡ filter (λ (a : UserSmtpAssignment). eqb_ℤ a.user_id v) t.rows
  assigned-other smtp_id weight enabled now t =
      elim (Bool-cases (any (is_assignment id smtp_id) t.rows)) [
        | inl e ↦ rw e (
            filter-update_other (λ (a : UserSmtpAssignment). eqb_ℤ a.user_id v)
              (is_assignment id smtp_id) (λ a. record a { weight = weight; enabled = enabled })
              t.rows (λ a k. other_user id v a.user_id other (is_assignment-user smtp_id a k))
              (λ a. refl))
        | inr e ↦
            rw e
              (filter-insert_other (λ (a : UserSmtpAssignment). eqb_ℤ a.user_id v) t.rows _ other)
      ]

  pub assign-SameFor :
      (smtp_id weight : ℤ) (enabled : Bool)
      → Steps (On (SameFor v)) (Smtps.assign_to_user env id smtp_id weight enabled)
  unfolding Smtps.assign_to_user
  assign-SameFor smtp_id weight enabled = On-exec (SameFor-order v) env _ (λ now db. record {
    users_same = refl;
    events_same = refl;
    queue_same = refl;
    servers_same = refl;
    plans_same = refl;
    rules_same = refl;
    assignments_same =
        assigned-other smtp_id (if is_positive weight then weight else pos 1) enabled now
          db.user_smtp_assignments;
  })

  module _ (positive : is_positive id ≡ true) where
    on_events :
        (f : ℕ → MailEvent → Bool)
        → Steps (On (SameFor v)) (
            exec env (λ now db. record db {
              mail_events = delete_rows (λ e. f now e && Events.of_user id e) db.mail_events;
            }))
    on_events f = On-exec (SameFor-order v) env _ (λ now db. record {
      users_same = refl;
      queue_same = refl;
      servers_same = refl;
      assignments_same = refl;
      plans_same = refl;
      rules_same = refl;
      events_same =
          filter-filter_other (λ (e : MailEvent). eqb_ℤ e.user_id v)
            (λ e. f now e && Events.of_user id e) db.mail_events.rows
            (λ e k. other_user id v e.user_id other (selects-event id (f now e) e positive k));
    })

    on_queue :
        (f : ℕ → QueueItem → Bool)
        → Steps (On (SameFor v)) (
            exec env (λ now db. record db {
              outbound_queue =
                  delete_rows
                    (λ q. is_pending q.status && (f now q && Queue.of_user id q))
                    db.outbound_queue;
            }))
    on_queue f = On-exec (SameFor-order v) env _ (λ now db. record {
      users_same = refl;
      events_same = refl;
      servers_same = refl;
      assignments_same = refl;
      plans_same = refl;
      rules_same = refl;
      queue_same =
          filter-filter_other (λ (q : QueueItem). eqb_ℤ q.user_id v)
            (λ q. is_pending q.status && (f now q && Queue.of_user id q)) db.outbound_queue.rows
            (λ q k. other_user id v q.user_id other (selects-item id (f now q) q positive k));
    })

    pub Deletes-SameFor : Deletes (SameFor v) env id
    unfolding Events.delete_all Events.delete_since_days Events.delete_date_range
        Queue.delete_pending_all Queue.delete_pending_since_days Queue.delete_pending_date_range
    Deletes-SameFor = record {
      events_all = on_events (λ now e. true);
      events_since = λ days.
          Steps-if _ _ _
            (on_events (λ now e. leb (now - pos_part days * seconds_per_day) e.created_at))
            (On-fail (SameFor-order v) _);
      events_range = λ from to. on_events (λ now e.
          between (env.datetime (from ++ codes " 00:00:00"))
            (env.datetime (to ++ codes " 23:59:59")) e.created_at);
      pending_all = on_queue (λ now e. true);
      pending_since = λ days.
          Steps-if _ _ _
            (on_queue (λ now e. leb (now - pos_part days * seconds_per_day) e.created_at))
            (On-fail (SameFor-order v) _);
      pending_range = λ from to. on_queue (λ now e.
          between (env.datetime (from ++ codes " 00:00:00"))
            (env.datetime (to ++ codes " 23:59:59")) e.created_at);
    }
