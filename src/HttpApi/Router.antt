-- ===== src/HttpApi/Router.antt =====
-- `Router`: the routes with what the handlers read of a request, and the handler of each. A constructor
-- is named for its handler; `/ui` and the redirection to it are left out.
use smmail.Prelude.{Bool, Bytes, ℤ}
use smmail.Config.{Config}
use smmail.Runtime.{Env, Result}
use smmail.HttpApi.Forms.{
  Login, Account, NewAccount, Registration, Rule, Deletion, UserDeletion, Package, Server,
  Assignment, OwnAssignment, SmtpTest, StoredTest,
}
use smmail.HttpApi.Reply.{Site, Answer, go, reply, H, Response, ◌>>=◌, ◌>>◌}
use smmail.HttpApi.Guards.{Headers, admin_auth, user_auth}
use smmail.HttpApi.Guards
use smmail.HttpApi.Accounts
use smmail.HttpApi.Plans
use smmail.HttpApi.Logs
use smmail.HttpApi.Servers
use smmail.HttpApi.Probes
use smmail.HttpApi.Reports

-- `/api/admin`, behind `adminAuth`.
pub data AdminRoute : Type 0 where
  overview list_users list_packages list_admin_smtps : AdminRoute
  list_user_usage delete_user user_usage list_domain_throttles delete_package delete_smtp_admin
        list_user_smtp_assign :
      Bytes → AdminRoute
  create_user : Result NewAccount → AdminRoute
  update_user : Bytes → Result Account → AdminRoute
  assign_package_to_user set_password : Bytes → Result Bytes → AdminRoute
  set_user_smtp_mode : Bytes → Result Bool → AdminRoute
  upsert_domain_throttle : Bytes → Result Rule → AdminRoute
  list_events list_pending_admin : Bytes → Bytes → Bytes → AdminRoute
  delete_events_admin delete_pending_admin : Result UserDeletion → AdminRoute
  admin_smtp_test : Result SmtpTest → AdminRoute
  create_or_update_package : Result Package → AdminRoute
  set_default_package : Result Bytes → AdminRoute
  create_admin_smtp : Result Server → AdminRoute
  test_smtp_admin : Bytes → Result StoredTest → AdminRoute
  assign_smtp_to_user : Bytes → Result Assignment → AdminRoute
  unassign_smtp_admin : Bytes → Bytes → AdminRoute

-- `/api/user`, behind `userAuth`.
pub data UserRoute : Type 0 where
  user_me user_list_packages user_usage_self user_list_smtps user_available_smtp
        user_assigned_smtps :
      UserRoute
  user_select_plan : Result Bytes → UserRoute
  user_events user_pending : Bytes → Bytes → UserRoute
  delete_events_user delete_pending_user : Result Deletion → UserRoute
  user_create_smtp : Result Server → UserRoute
  user_delete_smtp user_unassign_smtp : Bytes → UserRoute
  user_test_smtp : Bytes → Result StoredTest → UserRoute
  user_assign_smtp : Result OwnAssignment → UserRoute
  user_set_rotation : Result Bool → UserRoute

pub data Route : Type 0 where
  smtp_test : Result SmtpTest → Route
  admin_login user_login : Result Login → Route
  user_register : Result Registration → Route
  admin : AdminRoute → Route
  user : UserRoute → Route

pub record Request : Type 0 where
  pub headers : Headers
  pub route : Route

module _ (env : Env) where
  unfoldable pub handle_admin : AdminRoute → H Response
  handle_admin overview = Reports.overview env
  handle_admin (list_user_usage limit) = Reports.list_user_usage env limit
  handle_admin list_users = Accounts.list_users env
  handle_admin (create_user form) = Accounts.create_user env form
  handle_admin (update_user id form) = Accounts.update_user env id form
  handle_admin (assign_package_to_user id form) = Accounts.assign_package_to_user env id form
  handle_admin (set_password id form) = Accounts.set_password env id form
  handle_admin (set_user_smtp_mode id form) = Accounts.set_user_smtp_mode env id form
  handle_admin (delete_user id) = Accounts.delete_user env id
  handle_admin (user_usage id) = Reports.user_usage env id
  handle_admin (list_domain_throttles id) = Plans.list_domain_throttles env id
  handle_admin (upsert_domain_throttle id form) = Plans.upsert_domain_throttle env id form
  handle_admin (list_events limit user_id offset) = Logs.list_events env limit user_id offset
  handle_admin (delete_events_admin form) = Logs.delete_events_admin env form
  handle_admin (list_pending_admin limit user_id offset) =
      Logs.list_pending_admin env limit user_id offset
  handle_admin (delete_pending_admin form) = Logs.delete_pending_admin env form
  handle_admin (admin_smtp_test form) = Probes.smtp_test env form
  handle_admin list_packages = Plans.list_packages env
  handle_admin (create_or_update_package form) = Plans.create_or_update_package env form
  handle_admin (set_default_package form) = Plans.set_default_package env form
  handle_admin (delete_package name) = Plans.delete_package env name
  handle_admin list_admin_smtps = Servers.list_admin_smtps env
  handle_admin (create_admin_smtp form) = Servers.create_admin_smtp env form
  handle_admin (delete_smtp_admin id) = Servers.delete_smtp_admin env id
  handle_admin (test_smtp_admin id form) = Probes.test_smtp_admin env id form
  handle_admin (assign_smtp_to_user id form) = Servers.assign_smtp_to_user env id form
  handle_admin (list_user_smtp_assign id) = Servers.list_user_smtp_assign env id
  handle_admin (unassign_smtp_admin id smtp_id) = Servers.unassign_smtp_admin env id smtp_id

  unfoldable pub handle_user : UserRoute → ℤ → H Response
  handle_user user_me id = Accounts.user_me env id
  handle_user user_list_packages id = Plans.user_list_packages env id
  handle_user (user_select_plan form) id = Accounts.user_select_plan env id form
  handle_user user_usage_self id = Reports.user_usage_self env id
  handle_user (user_events limit offset) id = Logs.user_events env id limit offset
  handle_user (delete_events_user form) id = Logs.delete_events_user env id form
  handle_user (user_pending limit offset) id = Logs.user_pending env id limit offset
  handle_user (delete_pending_user form) id = Logs.delete_pending_user env id form
  handle_user user_list_smtps id = Servers.user_list_smtps env id
  handle_user (user_create_smtp form) id = Servers.user_create_smtp env id form
  handle_user (user_delete_smtp smtp_id) id = Servers.user_delete_smtp env id smtp_id
  handle_user (user_test_smtp smtp_id form) id = Probes.user_test_smtp env id smtp_id form
  handle_user user_available_smtp id = Servers.user_available_smtp env id
  handle_user (user_assign_smtp form) id = Servers.user_assign_smtp env id form
  handle_user user_assigned_smtps id = Servers.user_assigned_smtps env id
  handle_user (user_unassign_smtp smtp_id) id = Servers.user_unassign_smtp env id smtp_id
  handle_user (user_set_rotation form) id = Accounts.user_set_rotation env id form

  unfoldable pub handle : Config → Request → H Response
  handle cfg req = elim req.route [
    | smtp_test form ↦ Probes.smtp_test env form
    | admin_login form ↦ Guards.admin_login env cfg form
    | user_login form ↦ Guards.user_login env form
    | user_register form ↦ Accounts.user_register env form
    | admin r ↦ admin_auth env req.headers >> handle_admin r
    | user r ↦ user_auth env req.headers >>= handle_user r
  ]

-- What is sent: the answer of a handler that has returned early, or of one that came to its end.
abbrev pub answer_of : Answer Response → Response
answer_of (go r) = r
answer_of (reply r) = r

unfoldable pub serve : Env → Config → Request → Site → Response × Site
unfolding handle
serve env cfg req s = let (a, s') = handle env cfg req s in (answer_of a, s')
