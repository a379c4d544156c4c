-- ===== src/HttpApi/Confined/Served.antt =====
-- A request of an account that is restricted to the servers of the system.
use smmail.Prelude.{
  ◌≡◌, sym, subst, true, false, not, ◌&&◌, Bytes, ℤ, pos, eqb_ℤ, eqb_ℤ_iff, is_positive, some, find,
  arith,
}
use smmail.Config.{Config}
use smmail.Models.{User, UpstreamSmtp}
use smmail.Runtime.{Env, Result, ok, err}
use smmail.Repo.Users
use smmail.Repo.Smtps
use smmail.HttpApi.Forms.{Server, OwnAssignment}
use smmail.HttpApi.Reply.{Site, go}
use smmail.HttpApi.Servers
use smmail.HttpApi.Guards.{Headers, user_auth}
use smmail.HttpApi.Guards.Checked.{user_auth-same}
use smmail.HttpApi.Isolation.Served.{bind-go}
use smmail.HttpApi.Router.{Route, UserRoute, handle, handle_user, serve}
use smmail.HttpApi.Effects.{
  Within, Runs, Runs-bind, Runs-give, Runs-path_id, runs_rules, read_rules,
}
use smmail.HttpApi.Effects.Found.{
  seen-Within, found-Within, bound-Within, passed-Within, called-Within,
}
use smmail.HttpApi.Handled.{OtherWrites, other_route-Runs}
use smmail.HttpApi.Grants.{Grants, nothing, new_server, assignment, grants}
use smmail.HttpApi.Isolation.Requests.{positive-other}
use smmail.HttpApi.Sound.{has_id}
use smmail.HttpApi.Sound.Served.{IsSecure, user_auth-Gives}
use smmail.HttpApi.Confined.{Confines, Confines-order, is_system}
use smmail.HttpApi.Confined.Writes.{
  update-Confines, apply_package-Confines, unassign-Confines, assign-Confines, delete_smtp-Confines,
  Deletes-Confines,
}

foreign_owner :
    (id owner : ℤ) → is_positive id ≡ true → eqb_ℤ owner id ≡ true → eqb_ℤ owner (pos 0) ≡ false
foreign_owner id owner p e =
    subst (λ (o : ℤ). eqb_ℤ o (pos 0) ≡ false) (sym ((eqb_ℤ_iff owner id).0 e))
      (positive-other id p)

module _ (env : Env) (id : ℤ) where
  turn_rotation_on-Confines :
      (r : Result User) → Runs (Confines id) (Servers.turn_rotation_on env id r)
  unfolding Servers.turn_rotation_on
  turn_rotation_on-Confines (ok u) = search (runs_rules, Confines-order, update-Confines env id)
  turn_rotation_on-Confines (err e) = search (runs_rules, Confines-order)

  user_delete_smtp-Confines :
      is_positive id ≡ true
      → (text : Bytes) → Runs (Confines id) (Servers.user_delete_smtp env id text)
  unfolding Servers.user_delete_smtp Smtps.get_by_id
  user_delete_smtp-Confines positive text =
      Runs-bind (Confines-order id) _ _ (Runs-path_id (Confines-order id) _ _) (λ smtp_id. record {
        at = λ s.
            found-Within (Confines-order id) env
              (λ db. find (has_id smtp_id) db.upstream_smtps.rows) _ _ s
              (λ item t e. passed-Within (Confines-order id) env _ _ _ t (λ a.
                called-Within (Confines-order id) env _ _ _ t
                  (delete_smtp-Confines env id smtp_id item t.world e
                    (foreign_owner id item.owner_user_id positive (ground (arith, a))))
                  (λ x. Runs-give (Confines-order id) _)));
      })

  other_writes : is_positive id ≡ true → OtherWrites (Confines id) env id
  other_writes positive = record {
    deletes = Deletes-Confines env id;
    update = update-Confines env id;
    apply_package = apply_package-Confines env id;
    unassign = unassign-Confines env id;
    delete_smtp = user_delete_smtp-Confines positive;
  }

  module _ (s : Site) (u : User)
      (found : find (λ (x : User). eqb_ℤ x.id id) s.world.db.users.rows ≡ some u)
      (restricted : u.allow_user_smtp ≡ false) where
    user_create_smtp-Confines :
        (form : Result Server) → Within (Confines id) s (Servers.user_create_smtp env id form s).1
    unfolding Servers.user_create_smtp Users.get_by_id
    user_create_smtp-Confines form =
        seen-Within (Confines-order id) env (λ db. find (λ (x : User). eqb_ℤ x.id id) db.users.rows)
          _ _ s
          (λ a t same e.
            passed-Within (Confines-order id) env _ _ _ t
              (λ k. absurd (ground (arith, found, e, restricted, k))))

    system_of :
        (smtp_id : ℤ) (a : User) (item : UpstreamSmtp) (t : Site)
        → find (λ (x : User). eqb_ℤ x.id id) s.world.db.users.rows ≡ some a
        → find (has_id smtp_id) t.world.db.upstream_smtps.rows ≡ some item
        → not a.allow_user_smtp && not (eqb_ℤ item.owner_user_id (pos 0)) ≡ false
        → is_system smtp_id t.world.db ≡ true
    system_of smtp_id a item t e k h = rw k (ground (arith, found, e, restricted, h))

    user_assign_smtp-Confines :
        (form : Result OwnAssignment)
        → Within (Confines id) s (Servers.user_assign_smtp env id form s).1
    unfolding Servers.user_assign_smtp Users.get_by_id Smtps.get_by_id
    user_assign_smtp-Confines form =
        seen-Within (Confines-order id) env (λ db. find (λ (x : User). eqb_ℤ x.id id) db.users.rows)
          _ _ s
          (λ a t same e. bound-Within (Confines-order id) env form _ t (λ req.
            found-Within (Confines-order id) env
              (λ db. find (has_id req.smtp_id) db.upstream_smtps.rows) _ _ t
              (λ item v k. passed-Within (Confines-order id) env _ _ _ v (λ l.
                passed-Within (Confines-order id) env _ _ _ v (λ m.
                  called-Within (Confines-order id) env _ _ _ v
                    (assign-Confines env id req.smtp_id _ true v.world
                      (system_of req.smtp_id a item v e k l))
                    (λ x.
                      search (runs_rules, read_rules, Confines-order, turn_rotation_on-Confines)
                        depth 10))))))

    granting-Confines :
        (route : UserRoute)
        → Grants route
        → is_positive id ≡ true
        → Within (Confines id) s (handle_user env route id s).1
    unfolding handle_user
    granting-Confines route (nothing h) positive =
        (other_route-Runs (Confines-order id) env id (other_writes positive) route h).at s
    granting-Confines _ (new_server form) positive = user_create_smtp-Confines form
    granting-Confines _ (assignment form) positive = user_assign_smtp-Confines form

-- A request under the session of a user whose account is restricted to the servers of the system leaves
-- the servers of the system, gives the user no server of its own that was not there, and assigns the
-- user no server that was not assigned, but one of the system.
pub serve_user-Confines :
    (env : Env) (cfg : Config) (headers : Headers) (route : UserRoute) (s : Site) (id : ℤ)
    (u : User)
    → IsSecure s
    → (user_auth env headers s).0 ≡ go id
    → find (λ (x : User). eqb_ℤ x.id id) s.world.db.users.rows ≡ some u
    → u.allow_user_smtp ≡ false
    → Confines id s.world.db
        (serve env cfg (record { headers = headers; route = Route.user route }) s).1.world.db
unfolding serve handle
serve_user-Confines env cfg headers route s id u sec e found restricted =
    rw
      (bind-go (user_auth env headers) (handle_user env route) s id e
        (user_auth-same env headers s))
      (granting-Confines env id s u found restricted route (grants route)
        ((user_auth-Gives env headers).at s id sec e)).kept
