-- ===== src/HttpApi/Confined/Writes.antt =====
-- The statements of a user's requests that grant no server but one of the system.
use smmail.Prelude.{
  ℕ, ◌≡◌, refl, sym, subst, ◌∙◌, ◌⊎◌, inl, inr, Bool, true, false, not, ◌++◌, ℤ, pos, eqb_ℤ,
  eqb_ℤ_iff, is_positive, List, [], ◌∷◌, some, find, filter, any, update, if◌then◌else◌, Bool-cases,
  find-filter, arith,
}
use smmail.Models.{User, PackagePlan, UpstreamSmtp, UserSmtpAssignment}
use smmail.Models.Database.{Database, Table}
use smmail.Runtime.{Env, World, exec, timestamp}
use smmail.Runtime.Effects.{Steps, Steps-if, exec-cases}
use smmail.Runtime.Kept.{On, On-exec, On-fail, On-tick, On-two_at}
use smmail.Repo.Users
use smmail.Repo.Events
use smmail.Repo.Events.{seconds_per_day, between}
use smmail.Repo.Queue
use smmail.Repo.Smtps
use smmail.Repo.Smtps.{is_assignment}
use smmail.HttpApi.Handled.{Deletes}
use smmail.HttpApi.Sound.{has_id}
use smmail.HttpApi.Sound.Tables.{assigned}
use smmail.HttpApi.Confined.{is_unowned, is_system, is_assigned, Confines, Confines-order}

module _ {ℓ} {A : Type ℓ} (p : A → Bool) where
  any-filter : (q : A → Bool) (xs : List A) → any p (filter q xs) ≡ true → any p xs ≡ true
  any-filter q [] h = h
  any-filter q (x ∷ xs) h = ground (arith, any-filter q xs, h)

  any-update_same :
      (q : A → Bool) (f : A → A) (xs : List A)
      → ((x : A) → p (f x) ≡ p x)
      → any p (update q f xs) ≡ any p xs
  any-update_same q f [] h = refl
  any-update_same q f (x ∷ xs) h = ground (arith, any-update_same q f xs h, h x)

  any-insert :
      (xs : List A) (y : A) → any p (xs ++ y ∷ []) ≡ true → (any p xs ≡ true) ⊎ (p y ≡ true)
  any-insert [] y h = elim (Bool-cases (p y)) [
    | inl e ↦ inr e
    | inr e ↦ absurd (ground (arith, h, e))
  ]
  any-insert (x ∷ xs) y h = elim (Bool-cases (p x)) [
    | inl e ↦ inl (rw e refl)
    | inr e ↦ rw e (any-insert xs y (rw e at h))
  ]

module _ (env : Env) (id : ℤ) where
  other :
      (f : ℕ → Database → Database)
      → ((now : ℕ) (db : Database) → (f now db).upstream_smtps ≡ db.upstream_smtps)
      → ((now : ℕ) (db : Database) → (f now db).user_smtp_assignments ≡ db.user_smtp_assignments)
      → Steps (On (Confines id)) (exec env f)
  other f e k = On-exec (Confines-order id) env f (λ now db. record {
    owned = λ p h. rw (e now db) at h;
    system = λ i h. rw (e now db) h;
    granted = λ i h. inl (rw (k now db) at h);
  })

  pub update-Confines : (u : User) → Steps (On (Confines id)) (Users.update env id u)
  unfolding Users.update
  update-Confines u = other _ (λ now db. refl) (λ now db. refl)

  pub apply_package-Confines :
      (p : PackagePlan) → Steps (On (Confines id)) (Users.apply_package env id p)
  unfolding Users.apply_package
  apply_package-Confines p = other _ (λ now db. refl) (λ now db. refl)

  pub unassign-Confines :
      (smtp_id : ℤ) → Steps (On (Confines id)) (Smtps.unassign_from_user env id smtp_id)
  unfolding Smtps.unassign_from_user
  unassign-Confines smtp_id = On-exec (Confines-order id) env _ (λ now db. record {
    owned = λ p h. h;
    system = λ i h. h;
    granted = λ i h. inl (
        any-filter (is_assignment id i) (λ a. not (is_assignment id smtp_id a))
          db.user_smtp_assignments.rows h);
  })

  -- A server of the system is assigned.
  assigned-granted :
      (smtp_id weight : ℤ) (enabled : Bool) (now : ℕ) (t : Table UserSmtpAssignment) (i : ℤ)
      → any (is_assignment id i) (assigned id smtp_id weight enabled now t).rows ≡ true
      → (any (is_assignment id i) t.rows ≡ true) ⊎ (smtp_id ≡ i)
  assigned-granted smtp_id weight enabled now t i h =
      elim (Bool-cases (any (is_assignment id smtp_id) t.rows)) [
        | inl e ↦ inl (
            sym (
              any-update_same (is_assignment id i) (is_assignment id smtp_id)
                (λ a. record a { weight = weight; enabled = enabled }) t.rows (λ a. refl))
            ∙ (rw e at h))
        | inr e ↦ elim (any-insert (is_assignment id i) t.rows _ (rw e at h)) [
          | inl k ↦ inl k
          | inr k ↦ inr (ground (arith, (eqb_ℤ_iff smtp_id i).0, k))
        ]
      ]

  exec-at :
      (f : ℕ → Database → Database) (w : World)
      → ((now : ℕ) → Confines id w.db (f now w.db))
      → On (Confines id) w (exec env f w).1
  exec-at f w h = elim (exec-cases env f w) [
    | inl e ↦ rw e (On-tick (Confines-order id) w)
    | inr e ↦ rw e (record { kept = h (timestamp env w.ticks) })
  ]

  pub assign-Confines :
      (smtp_id weight : ℤ) (enabled : Bool) (w : World)
      → is_system smtp_id w.db ≡ true
      → On (Confines id) w (Smtps.assign_to_user env id smtp_id weight enabled w).1
  unfolding Smtps.assign_to_user
  assign-Confines smtp_id weight enabled w s = exec-at _ w (λ now. record {
    owned = λ p h. h;
    system = λ i h. h;
    granted = λ i h.
        elim (assigned-granted smtp_id (if is_positive weight then weight else pos 1) enabled now
          w.db.user_smtp_assignments i h) [
            | inl k ↦ inl k
            | inr k ↦ inr (subst (λ (j : ℤ). is_system j w.db ≡ true) k s)
          ];
  })

  -- A server that the user owns is deleted.
  system-filter :
      (smtp_id : ℤ) (item : UpstreamSmtp) (db : Database) (i : ℤ)
      → find (has_id smtp_id) db.upstream_smtps.rows ≡ some item
      → eqb_ℤ item.owner_user_id (pos 0) ≡ false
      → is_system i db ≡ true
      → is_unowned (
          find
            (has_id i)
            (filter (λ (s : UpstreamSmtp). not (eqb_ℤ s.id smtp_id)) db.upstream_smtps.rows))
        ≡ true
  system-filter smtp_id item db i e own h = elim (Bool-cases (eqb_ℤ i smtp_id)) [
    | inl k ↦ absurd (
        ground
          (arith, own, e, subst (λ (j : ℤ). is_system j db ≡ true) ((eqb_ℤ_iff i smtp_id).0 k) h))
    | inr k ↦
        rw
          (find-filter (has_id i) (λ (s : UpstreamSmtp). not (eqb_ℤ s.id smtp_id))
            db.upstream_smtps.rows (λ s l. ground (arith, k, (eqb_ℤ_iff s.id i).0 l)))
          h
  ]

  pub delete_smtp-Confines :
      (smtp_id : ℤ) (item : UpstreamSmtp) (w : World)
      → find (has_id smtp_id) w.db.upstream_smtps.rows ≡ some item
      → eqb_ℤ item.owner_user_id (pos 0) ≡ false
      → On (Confines id) w (Smtps.delete_smtp env smtp_id w).1
  unfolding Smtps.delete_smtp
  delete_smtp-Confines smtp_id item w e own =
      let less : (i : ℤ)
          → any (is_assignment id i) (
              filter (λ (a : UserSmtpAssignment). not (eqb_ℤ a.smtp_id smtp_id))
                w.db.user_smtp_assignments.rows)
            ≡ true
          → is_assigned id i w.db ≡ true =
        λ i.
          any-filter (is_assignment id i)
            (λ (a : UserSmtpAssignment). not (eqb_ℤ a.smtp_id smtp_id))
            w.db.user_smtp_assignments.rows in
      On-two_at (Confines-order id) env _ _ w
        (λ now. record { owned = λ p h. h; system = λ i h. h; granted = λ i h. inl (less i h) })
        (λ now later. record {
          owned = λ p.
              any-filter _ (λ (s : UpstreamSmtp). not (eqb_ℤ s.id smtp_id))
                w.db.upstream_smtps.rows;
          system = λ i. system-filter smtp_id item w.db i e own;
          granted = λ i h. inl (less i h);
        })

  pub Deletes-Confines : Deletes (Confines id) env id
  unfolding Events.delete_all Events.delete_since_days Events.delete_date_range
      Queue.delete_pending_all Queue.delete_pending_since_days Queue.delete_pending_date_range
  Deletes-Confines = record {
    events_all = other _ (λ now db. refl) (λ now db. refl);
    events_since = λ days.
        Steps-if _ _ _ (other _ (λ now db. refl) (λ now db. refl)) (On-fail (Confines-order id) _);
    events_range = λ from to. other _ (λ now db. refl) (λ now db. refl);
    pending_all = other _ (λ now db. refl) (λ now db. refl);
    pending_since = λ days.
        Steps-if _ _ _ (other _ (λ now db. refl) (λ now db. refl)) (On-fail (Confines-order id) _);
    pending_range = λ from to. other _ (λ now db. refl) (λ now db. refl);
  }
