-- ===== src/HttpApi/Isolation/Requests.antt =====
-- A request of one user, seen from another.
use smmail.Prelude.{
  ◌≡◌, refl, subst, true, false, not, Bytes, ℤ, pos, negsuc, eqb_ℤ, eqb_ℤ_iff, is_positive, List,
  [], ◌∷◌, Option, some, All, filter, find, Bool-cases, inl, inr, filter-filter_one, arith,
}
use smmail.Models.{User, UpstreamSmtp, UserSmtpAssignment}
use smmail.Runtime.{Env, World, Result, ok, err}
use smmail.Runtime.Kept.{On, On-two_at}
use smmail.Repo.Smtps
use smmail.HttpApi.Forms.{Server, OwnAssignment}
use smmail.HttpApi.Servers
use smmail.HttpApi.Servers.{is_foreign, server_row}
use smmail.HttpApi.Router.{UserRoute, handle_user}
use smmail.HttpApi.Effects.{Runs, Runs-bind, Runs-give, Runs-path_id, runs_rules, read_rules}
use smmail.HttpApi.Effects.Found.{found-Within, passed-Within, called-Within}
use smmail.HttpApi.Handled.{UserWrites, Deletes, handle_user-Runs}
use smmail.HttpApi.Sound.{IsSound, has_id, suits, is_owned}
use smmail.HttpApi.Sound.Writes
use smmail.HttpApi.Sound.Tables.{filter-IsOwned, delete-IsOwned}
use smmail.HttpApi.Sound.Requests
use smmail.HttpApi.Isolation.{
  SameFor, SameFor-order, Apart, Apart-order, Apart-both, Apart-steps, other_user,
}
use smmail.HttpApi.Isolation.Writes.{
  update-SameFor, apply_package-SameFor, create-SameFor, unassign-SameFor, assign-SameFor,
  Deletes-SameFor,
}

pub positive-other : (id : ℤ) → is_positive id ≡ true → eqb_ℤ id (pos 0) ≡ false
positive-other (pos n) h = ground (arith, h)
positive-other (negsuc n) h = ground (arith, h)

-- A server of a user is assigned to nobody else.
suits-owner :
    (id v : ℤ) (o : Option UpstreamSmtp) (item : UpstreamSmtp) (user_id : ℤ)
    → o ≡ some item
    → eqb_ℤ item.owner_user_id id ≡ true
    → is_positive id ≡ true
    → eqb_ℤ id v ≡ false
    → suits user_id o ≡ true
    → eqb_ℤ user_id v ≡ false
suits-owner id v o item user_id e own p other h = ground (
  arith,
  e,
  h,
  own,
  other,
  (eqb_ℤ_iff item.owner_user_id id).0 own,
  positive-other id p,
  eqb_ℤ_iff item.owner_user_id user_id,
)

-- The assignments of a server that a user owns are the user's.
without-other :
    (id v smtp_id : ℤ) (item : UpstreamSmtp) (smtps : List UpstreamSmtp)
    (assignments : List UserSmtpAssignment)
    → All (λ a. is_owned smtps a ≡ true) assignments
    → find (has_id smtp_id) smtps ≡ some item
    → eqb_ℤ item.owner_user_id id ≡ true
    → is_positive id ≡ true
    → eqb_ℤ id v ≡ false
    → filter
        (λ (a : UserSmtpAssignment). eqb_ℤ a.user_id v)
        (filter (λ (a : UserSmtpAssignment). not (eqb_ℤ a.smtp_id smtp_id)) assignments)
      ≡ filter (λ (a : UserSmtpAssignment). eqb_ℤ a.user_id v) assignments
without-other id v smtp_id item smtps [] all e own p other = refl
without-other id v smtp_id item smtps (a ∷ rest) (ha, all) e own p other =
    elim (Bool-cases (eqb_ℤ a.smtp_id smtp_id)) [
      | inl k ↦ ground (
        arith,
        k,
        without-other id v smtp_id item smtps rest all e own p other,
        suits-owner id v (find (has_id smtp_id) smtps) item a.user_id e own p other (
            subst (λ i. suits a.user_id (find (has_id i) smtps) ≡ true)
              ((eqb_ℤ_iff a.smtp_id smtp_id).0 k) ha),
      )
      | inr k ↦ ground (arith, k, without-other id v smtp_id item smtps rest all e own p other)
    ]

module _ (env : Env) (id v : ℤ) (positive : is_positive id ≡ true)
    (other : eqb_ℤ id v ≡ false) where
  -- Deleting a server that the user owns.
  delete_smtp-Apart :
      (smtp_id : ℤ) (item : UpstreamSmtp) (w : World)
      → find (has_id smtp_id) w.db.upstream_smtps.rows ≡ some item
      → eqb_ℤ item.owner_user_id id ≡ true
      → On (Apart v) w (Smtps.delete_smtp env smtp_id w).1
  unfolding Smtps.delete_smtp
  delete_smtp-Apart smtp_id item w e own =
      let assignments : IsSound w.db
          → filter (λ (a : UserSmtpAssignment). eqb_ℤ a.user_id v)
              (filter (λ (a : UserSmtpAssignment). not (eqb_ℤ a.smtp_id smtp_id))
                w.db.user_smtp_assignments.rows)
            ≡ filter (λ (a : UserSmtpAssignment). eqb_ℤ a.user_id v)
                w.db.user_smtp_assignments.rows =
        λ h.
          without-other id v smtp_id item w.db.upstream_smtps.rows w.db.user_smtp_assignments.rows
            h.servers.owned e own positive other in
      On-two_at (Apart-order v) env _ _ w
        (λ now. record {
          sound = λ h. record {
            positive = h.positive;
            servers =
                filter-IsOwned _ w.db.upstream_smtps w.db.user_smtp_assignments.rows h.servers;
          };
          others = λ h. record {
            users_same = refl;
            events_same = refl;
            queue_same = refl;
            servers_same = refl;
            assignments_same = assignments h;
            plans_same = refl;
            rules_same = refl;
          };
        })
        (λ now later. record {
          sound = λ h. record {
            positive = h.positive;
            servers =
                delete-IsOwned smtp_id w.db.upstream_smtps w.db.user_smtp_assignments.rows
                  h.servers;
          };
          others = λ h. record {
            users_same = refl;
            events_same = refl;
            queue_same = refl;
            servers_same =
                filter-filter_one (has_id smtp_id) (λ (s : UpstreamSmtp). eqb_ℤ s.owner_user_id v)
                  w.db.upstream_smtps.rows item e (other_user id v item.owner_user_id other own)
                  (h.servers.one_id smtp_id);
            assignments_same = assignments h;
            plans_same = refl;
            rules_same = refl;
          };
        })

  user_delete_smtp-Runs : (text : Bytes) → Runs (Apart v) (Servers.user_delete_smtp env id text)
  unfolding Servers.user_delete_smtp Smtps.get_by_id
  user_delete_smtp-Runs text =
      Runs-bind (Apart-order v) _ _ (Runs-path_id (Apart-order v) _ _) (λ smtp_id. record {
        at = λ s.
            found-Within (Apart-order v) env (λ db. find (has_id smtp_id) db.upstream_smtps.rows) _
              _ s
              (λ item t e. passed-Within (Apart-order v) env _ _ _ t (λ a.
                called-Within (Apart-order v) env _ _ _ t
                  (delete_smtp-Apart smtp_id item t.world e (ground (arith, a)))
                  (λ x. Runs-give (Apart-order v) _)));
      })

  create_smtp-SameFor : (form : Result Server) → Runs (SameFor v) (Servers.create_smtp env id form)
  unfolding Servers.create_smtp
  create_smtp-SameFor form =
      search (runs_rules, read_rules, SameFor-order, create-SameFor, assign-SameFor, other) depth 14

  turn_rotation_on-SameFor :
      (r : Result User) → Runs (SameFor v) (Servers.turn_rotation_on env id r)
  unfolding Servers.turn_rotation_on
  turn_rotation_on-SameFor (ok u) =
      search (runs_rules, SameFor-order, update-SameFor env id v other)
  turn_rotation_on-SameFor (err e) = search (runs_rules, SameFor-order)

  user_assign_smtp-SameFor :
      (form : Result OwnAssignment) → Runs (SameFor v) (Servers.user_assign_smtp env id form)
  unfolding Servers.user_assign_smtp
  user_assign_smtp-SameFor form =
      search
        (
          runs_rules,
          read_rules,
          SameFor-order,
          assign-SameFor env id v other,
          turn_rotation_on-SameFor,
        )
        depth 16

  Deletes-Apart : Deletes (Apart v) env id
  Deletes-Apart =
      let sounder = Writes.Deletes-Sounder env id in
      let same = Deletes-SameFor env id v other positive in
      record {
        events_all = Apart-steps v _ sounder.events_all same.events_all;
        events_since = λ days. Apart-steps v _ (sounder.events_since days) (same.events_since days);
        events_range =
            λ from to. Apart-steps v _ (sounder.events_range from to) (same.events_range from to);
        pending_all = Apart-steps v _ sounder.pending_all same.pending_all;
        pending_since =
            λ days. Apart-steps v _ (sounder.pending_since days) (same.pending_since days);
        pending_range =
            λ from to. Apart-steps v _ (sounder.pending_range from to) (same.pending_range from to);
      }

  Apart-UserWrites : UserWrites (Apart v) env id
  Apart-UserWrites =
      let sounder = Requests.Sounder-UserWrites env id in
      record {
        others = record {
          deletes = Deletes-Apart;
          update = λ u. Apart-steps v _ (sounder.others.update u) (update-SameFor env id v other u);
          apply_package = λ p.
              Apart-steps v _ (sounder.others.apply_package p)
                (apply_package-SameFor env id v other p);
          unassign = λ smtp_id.
              Apart-steps v _ (sounder.others.unassign smtp_id)
                (unassign-SameFor env id v other smtp_id);
          delete_smtp = user_delete_smtp-Runs;
        };
        create_smtp = λ form. Apart-both v _ (sounder.create_smtp form) (create_smtp-SameFor form);
        assign_smtp =
            λ form. Apart-both v _ (sounder.assign_smtp form) (user_assign_smtp-SameFor form);
      }

  pub handle_user-Apart : (route : UserRoute) → Runs (Apart v) (handle_user env route id)
  handle_user-Apart route = handle_user-Runs (Apart-order v) env id Apart-UserWrites route
