-- ===== src/HttpApi/Grants.antt =====
-- What the routes of a user may give: a server of its own, or one that is there.
use smmail.Prelude.{◌≡◌, refl, Bool, true, false}
use smmail.Runtime.{Result}
use smmail.HttpApi.Forms.{Server, OwnAssignment}
use smmail.HttpApi.Router.{UserRoute}

-- The routes on which a user gets a server.
abbrev pub grants_server : UserRoute → Bool
grants_server (UserRoute.user_create_smtp form) = true
grants_server (UserRoute.user_assign_smtp form) = true
grants_server UserRoute.user_me = false
grants_server UserRoute.user_list_packages = false
grants_server (UserRoute.user_select_plan form) = false
grants_server UserRoute.user_usage_self = false
grants_server (UserRoute.user_events limit offset) = false
grants_server (UserRoute.delete_events_user form) = false
grants_server (UserRoute.user_pending limit offset) = false
grants_server (UserRoute.delete_pending_user form) = false
grants_server UserRoute.user_list_smtps = false
grants_server (UserRoute.user_delete_smtp text) = false
grants_server (UserRoute.user_test_smtp text form) = false
grants_server UserRoute.user_available_smtp = false
grants_server UserRoute.user_assigned_smtps = false
grants_server (UserRoute.user_unassign_smtp text) = false
grants_server (UserRoute.user_set_rotation form) = false

-- A route grants no server, or it is one of two.
pub data Grants : UserRoute → Type 0 where
  nothing : {route : UserRoute} → grants_server route ≡ false → Grants route
  new_server : (form : Result Server) → Grants (UserRoute.user_create_smtp form)
  assignment : (form : Result OwnAssignment) → Grants (UserRoute.user_assign_smtp form)

pub grants : (route : UserRoute) → Grants route
grants UserRoute.user_me = nothing refl
grants UserRoute.user_list_packages = nothing refl
grants (UserRoute.user_select_plan form) = nothing refl
grants UserRoute.user_usage_self = nothing refl
grants (UserRoute.user_events limit offset) = nothing refl
grants (UserRoute.delete_events_user form) = nothing refl
grants (UserRoute.user_pending limit offset) = nothing refl
grants (UserRoute.delete_pending_user form) = nothing refl
grants UserRoute.user_list_smtps = nothing refl
grants (UserRoute.user_create_smtp form) = new_server form
grants (UserRoute.user_delete_smtp text) = nothing refl
grants (UserRoute.user_test_smtp text form) = nothing refl
grants UserRoute.user_available_smtp = nothing refl
grants (UserRoute.user_assign_smtp form) = assignment form
grants UserRoute.user_assigned_smtps = nothing refl
grants (UserRoute.user_unassign_smtp text) = nothing refl
grants (UserRoute.user_set_rotation form) = nothing refl
