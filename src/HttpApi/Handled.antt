-- ===== src/HttpApi/Handled.antt =====
-- What the handlers keep, from what the statements that write keep.
use smmail.Prelude.{◌≡◌, false, Bytes, ℤ, pos}
use smmail.Models.{User, PackagePlan}
use smmail.Models.Database.{Database}
use smmail.Runtime.{Env, M, Result}
use smmail.Runtime.Effects.{Steps}
use smmail.Runtime.Kept.{IsDatabaseOrder, On}
use smmail.Repo.Users
use smmail.Repo.Domains
use smmail.Repo.Events
use smmail.Repo.Queue
use smmail.Repo.Packages
use smmail.Repo.Smtps
use smmail.HttpApi.Forms.{Server, Assignment, OwnAssignment, Deletion}
use smmail.HttpApi.Accounts
use smmail.HttpApi.Plans
use smmail.HttpApi.Logs
use smmail.HttpApi.Servers
use smmail.HttpApi.Probes
use smmail.HttpApi.Reports
use smmail.HttpApi.Router.{AdminRoute, UserRoute, handle_admin, handle_user}
use smmail.HttpApi.Grants.{grants_server, Grants, nothing, new_server, assignment, grants}
use smmail.HttpApi.Effects.{Runs, Runs-bind, Runs-give, runs_rules, read_rules}

-- The deletions from the two logs, for a user.
pub record Deletes (D : Database → Database → Type 0) (env : Env) (id : ℤ) : Type 0 where
  pub events_all : Steps (On D) (Events.delete_all env id)
  pub events_since : (days : ℤ) → Steps (On D) (Events.delete_since_days env id days)
  pub events_range : (from to : Bytes) → Steps (On D) (Events.delete_date_range env id from to)
  pub pending_all : Steps (On D) (Queue.delete_pending_all env id)
  pub pending_since : (days : ℤ) → Steps (On D) (Queue.delete_pending_since_days env id days)
  pub pending_range :
      (from to : Bytes) → Steps (On D) (Queue.delete_pending_date_range env id from to)

-- What a user's requests write that grant no server; a handler is left whole where what it writes
-- depends on what it has read.
pub record OtherWrites (D : Database → Database → Type 0) (env : Env) (id : ℤ) : Type 0 where
  pub deletes : Deletes D env id
  pub update : (u : User) → Steps (On D) (Users.update env id u)
  pub apply_package : (p : PackagePlan) → Steps (On D) (Users.apply_package env id p)
  pub unassign : (smtp_id : ℤ) → Steps (On D) (Smtps.unassign_from_user env id smtp_id)
  pub delete_smtp : (text : Bytes) → Runs D (Servers.user_delete_smtp env id text)

-- What a user's requests write.
pub record UserWrites (D : Database → Database → Type 0) (env : Env) (id : ℤ) : Type 0 where
  pub others : OtherWrites D env id
  pub create_smtp : (form : Result Server) → Runs D (Servers.create_smtp env id form)
  pub assign_smtp : (form : Result OwnAssignment) → Runs D (Servers.user_assign_smtp env id form)

-- What an admin's requests write.
pub record AdminWrites (D : Database → Database → Type 0) (env : Env) : Type 0 where
  pub deletes : (id : ℤ) → Deletes D env id
  pub create : (u : User) → Steps (On D) (Users.create env u)
  pub update : (id : ℤ) (u : User) → Steps (On D) (Users.update env id u)
  pub apply_package : (id : ℤ) (p : PackagePlan) → Steps (On D) (Users.apply_package env id p)
  pub set_password : (id : ℤ) (hash : Bytes) → Steps (On D) (Users.set_password env id hash)
  pub delete_hard : (id : ℤ) → Steps (On D) (Users.delete_hard env id)
  pub upsert :
      (id : ℤ) (domain : Bytes) (limit ms : ℤ)
      → Steps (On D) (Domains.upsert env id domain limit ms)
  pub store_package : (p : PackagePlan) → Steps (On D) (Packages.create_or_update env p)
  pub set_default : (name : Bytes) → Steps (On D) (Packages.set_default env name)
  pub delete_package : (name : Bytes) → Steps (On D) (Packages.delete env name)
  pub unassign : (id smtp_id : ℤ) → Steps (On D) (Smtps.unassign_from_user env id smtp_id)
  pub create_smtp : (form : Result Server) → Runs D (Servers.create_smtp env (pos 0) form)
  pub delete_smtp : (smtp_id : ℤ) → Steps (On D) (Smtps.delete_smtp env smtp_id)
  pub assign_smtp :
      (text : Bytes) (form : Result Assignment) → Runs D (Servers.assign_smtp_to_user env text form)

module _ {D : Database → Database → Type 0} (order : IsDatabaseOrder D) (env : Env) where
  delete_rows-Runs :
      (all : M (Unit {0})) (since : ℤ → M (Unit {0})) (range : M (Unit {0})) (req : Deletion)
      → Steps (On D) all
      → ((days : ℤ) → Steps (On D) (since days))
      → Steps (On D) range
      → Runs D (Logs.delete_rows all since range req)
  unfolding Logs.delete_rows
  delete_rows-Runs all since range req h k l = search (runs_rules) depth 12

  event_deletion-Runs :
      (id : ℤ) (req : Deletion) → Deletes D env id → Runs D (Logs.event_deletion env id req)
  unfolding Logs.event_deletion
  event_deletion-Runs id req laws =
      Runs-bind order _ _
        (delete_rows-Runs _ _ _ req laws.events_all laws.events_since
          (laws.events_range req.from_date req.to_date))
        (λ _. Runs-give order _)

  pending_deletion-Runs :
      (id : ℤ) (req : Deletion) → Deletes D env id → Runs D (Logs.pending_deletion env id req)
  unfolding Logs.pending_deletion
  pending_deletion-Runs id req laws =
      Runs-bind order _ _
        (delete_rows-Runs _ _ _ req laws.pending_all laws.pending_since
          (laws.pending_range req.from_date req.to_date))
        (λ _. Runs-give order _)

  module _ (id : ℤ) (laws : OtherWrites D env id) where
    pub other_route-Runs :
        (route : UserRoute) → grants_server route ≡ false → Runs D (handle_user env route id)
    unfolding handle_user Accounts.user_me Plans.user_list_packages Accounts.user_select_plan
        Reports.user_usage_self Logs.user_events Logs.delete_events_user Logs.user_pending
        Logs.delete_pending_user Servers.user_list_smtps Probes.user_test_smtp
        Servers.user_available_smtp Servers.user_assigned_smtps Servers.user_unassign_smtp
        Accounts.user_set_rotation
    other_route-Runs UserRoute.user_me h = search (runs_rules, read_rules) depth 8
    other_route-Runs UserRoute.user_list_packages h = search (runs_rules, read_rules) depth 8
    other_route-Runs (UserRoute.user_select_plan form) h =
        search (runs_rules, read_rules, laws.apply_package) depth 10
    other_route-Runs UserRoute.user_usage_self h = search (runs_rules, read_rules) depth 8
    other_route-Runs (UserRoute.user_events limit offset) h =
        search (runs_rules, read_rules) depth 8
    other_route-Runs (UserRoute.delete_events_user form) h =
        search (runs_rules, event_deletion-Runs, laws.deletes)
    other_route-Runs (UserRoute.user_pending limit offset) h =
        search (runs_rules, read_rules) depth 8
    other_route-Runs (UserRoute.delete_pending_user form) h =
        search (runs_rules, pending_deletion-Runs, laws.deletes)
    other_route-Runs UserRoute.user_list_smtps h = search (runs_rules, read_rules) depth 8
    other_route-Runs (UserRoute.user_create_smtp form) h = absurd cc
    other_route-Runs (UserRoute.user_delete_smtp text) h = laws.delete_smtp text
    other_route-Runs (UserRoute.user_test_smtp text form) h =
        search (runs_rules, read_rules) depth 14
    other_route-Runs UserRoute.user_available_smtp h = search (runs_rules, read_rules) depth 8
    other_route-Runs (UserRoute.user_assign_smtp form) h = absurd cc
    other_route-Runs UserRoute.user_assigned_smtps h = search (runs_rules, read_rules) depth 8
    other_route-Runs (UserRoute.user_unassign_smtp text) h =
        search (runs_rules, read_rules, laws.unassign) depth 8
    other_route-Runs (UserRoute.user_set_rotation form) h =
        search (runs_rules, read_rules, laws.update) depth 10

  module _ (id : ℤ) (laws : UserWrites D env id) where
    granting-Runs : (route : UserRoute) → Grants route → Runs D (handle_user env route id)
    unfolding handle_user Servers.user_create_smtp
    granting-Runs route (nothing h) = other_route-Runs id laws.others route h
    granting-Runs _ (new_server form) = search (runs_rules, read_rules, laws.create_smtp) depth 8
    granting-Runs _ (assignment form) = laws.assign_smtp form

    pub handle_user-Runs : (route : UserRoute) → Runs D (handle_user env route id)
    handle_user-Runs route = granting-Runs route (grants route)

  module _ (laws : AdminWrites D env) where
    pub handle_admin-Runs : (route : AdminRoute) → Runs D (handle_admin env route)
    unfolding handle_admin Reports.overview Accounts.list_users Plans.list_packages
        Servers.list_admin_smtps Reports.list_user_usage Accounts.delete_user Reports.user_usage
        Plans.list_domain_throttles Plans.delete_package Servers.delete_smtp_admin
        Servers.list_user_smtp_assign Accounts.create_user Accounts.update_user
        Accounts.assign_package_to_user Accounts.set_password Accounts.set_user_smtp_mode
        Plans.upsert_domain_throttle Logs.list_events Logs.list_pending_admin
        Logs.delete_events_admin Logs.delete_pending_admin Probes.smtp_test
        Plans.create_or_update_package Plans.set_default_package Servers.create_admin_smtp
        Probes.test_smtp_admin Servers.unassign_smtp_admin
    handle_admin-Runs AdminRoute.overview = search (runs_rules, read_rules) depth 14
    handle_admin-Runs AdminRoute.list_users = search (runs_rules, read_rules) depth 14
    handle_admin-Runs AdminRoute.list_packages = search (runs_rules, read_rules) depth 14
    handle_admin-Runs AdminRoute.list_admin_smtps = search (runs_rules, read_rules) depth 14
    handle_admin-Runs (AdminRoute.list_user_usage limit) = search (runs_rules, read_rules) depth 14
    handle_admin-Runs (AdminRoute.delete_user id) =
        search (runs_rules, read_rules, laws.delete_hard) depth 14
    handle_admin-Runs (AdminRoute.user_usage id) = search (runs_rules, read_rules) depth 14
    handle_admin-Runs (AdminRoute.list_domain_throttles id) =
        search (runs_rules, read_rules) depth 14
    handle_admin-Runs (AdminRoute.delete_package name) =
        search (runs_rules, read_rules, laws.delete_package) depth 14
    handle_admin-Runs (AdminRoute.delete_smtp_admin id) =
        search (runs_rules, read_rules, laws.delete_smtp) depth 14
    handle_admin-Runs (AdminRoute.list_user_smtp_assign id) =
        search (runs_rules, read_rules) depth 14
    handle_admin-Runs (AdminRoute.create_user form) =
        search (runs_rules, read_rules, laws.create) depth 14
    handle_admin-Runs (AdminRoute.update_user id form) =
        search (runs_rules, read_rules, laws.update) depth 14
    handle_admin-Runs (AdminRoute.assign_package_to_user id form) =
        search (runs_rules, read_rules, laws.apply_package) depth 14
    handle_admin-Runs (AdminRoute.set_password id form) =
        search (runs_rules, read_rules, laws.set_password) depth 14
    handle_admin-Runs (AdminRoute.set_user_smtp_mode id form) =
        search (runs_rules, read_rules, laws.update) depth 14
    handle_admin-Runs (AdminRoute.upsert_domain_throttle id form) =
        search (runs_rules, read_rules, laws.upsert) depth 14
    handle_admin-Runs (AdminRoute.list_events limit id offset) =
        search (runs_rules, read_rules) depth 14
    handle_admin-Runs (AdminRoute.list_pending_admin limit id offset) =
        search (runs_rules, read_rules) depth 14
    handle_admin-Runs (AdminRoute.delete_events_admin form) =
        search (runs_rules, read_rules, event_deletion-Runs, laws.deletes) depth 14
    handle_admin-Runs (AdminRoute.delete_pending_admin form) =
        search (runs_rules, read_rules, pending_deletion-Runs, laws.deletes) depth 14
    handle_admin-Runs (AdminRoute.admin_smtp_test form) = search (runs_rules, read_rules) depth 14
    handle_admin-Runs (AdminRoute.create_or_update_package form) =
        search (runs_rules, read_rules, laws.store_package) depth 14
    handle_admin-Runs (AdminRoute.set_default_package form) =
        search (runs_rules, read_rules, laws.set_default) depth 14
    handle_admin-Runs (AdminRoute.create_admin_smtp form) =
        search (runs_rules, read_rules, laws.create_smtp) depth 14
    handle_admin-Runs (AdminRoute.test_smtp_admin id form) =
        search (runs_rules, read_rules) depth 14
    handle_admin-Runs (AdminRoute.assign_smtp_to_user id form) = laws.assign_smtp id form
    handle_admin-Runs (AdminRoute.unassign_smtp_admin id smtp_id) =
        search (runs_rules, read_rules, laws.unassign) depth 14
