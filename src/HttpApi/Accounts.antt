-- ===== src/HttpApi/Accounts.antt =====
-- The handlers that read and change the accounts. A path parameter is given as its text.
pub mod Registered
pub mod Changed
pub mod Tests
use smmail.Prelude.{
  Bool, true, false, ◌&&◌, not, Bytes, codes, is_empty, trim_space, ℤ, pos, Option, none, some,
  if◌then◌else◌,
}
use smmail.Models.{User, PackagePlan}
use smmail.Runtime.{Env, Result, ok, err, no_rows}
use smmail.Repo.Users
use smmail.Repo.Packages
use smmail.Service.Auth
use smmail.HttpApi.Values.{parse_int64, default_if_zero, default_if_empty}
use smmail.HttpApi.Forms.{Account, NewAccount, Registration}
use smmail.HttpApi.Reply.{
  H, Response, created, registered, user_item, user_list, ok_done, ok_created, ok_with, failed,
  give, call, look, server_error, bad_request, always, not_found, bind_json, path_id, refuse_if,
  ◌>>=◌, ◌>>◌,
}

-- `plan`, `monthly` and the limits that `createUser` goes on with: of the default plan, when it has
-- found one, or of the request.
abbrev pub chosen_terms : Account → Result PackagePlan → Account
chosen_terms a (err e) = record a {
  plan_name = default_if_empty a.plan_name (codes "starter");
  monthly_limit = default_if_zero a.monthly_limit (pos 10000);
}
chosen_terms a (ok p) = record a {
  plan_name = p.name;
  monthly_limit = p.monthly_limit;
  limit_per_sec = p.limit_per_sec;
  limit_per_min = p.limit_per_min;
  limit_per_hour = p.limit_per_hour;
  limit_per_day = p.limit_per_day;
  throttle_ms = p.throttle_ms;
}

-- `if req.AllowUserSMTP != nil { … }`.
abbrev pub or_given : Bool → Option Bool → Bool
or_given old none = old
or_given old (some b) = b

-- The row of `createUser`.
abbrev pub new_user : Bytes → Bytes → Account → User
new_user username hash a = record {
  id = pos 0;
  username = username;
  password_hash = hash;
  display_name = a.display_name;
  plan_name = a.plan_name;
  monthly_limit = a.monthly_limit;
  rotation_on = a.rotation_on;
  enabled = a.enabled;
  allow_user_smtp = or_given true a.allow_user_smtp;
  limit_per_sec = default_if_zero a.limit_per_sec (pos 5);
  limit_per_min = default_if_zero a.limit_per_min (pos 120);
  limit_per_hour = default_if_zero a.limit_per_hour (pos 3000);
  limit_per_day = default_if_zero a.limit_per_day (pos 20000);
  throttle_ms = a.throttle_ms;
  created_at = 0;
  updated_at = 0;
}

-- The row of `userRegister`.
abbrev pub registered_user : Registration → Bytes → PackagePlan → User
registered_user req hash p = record {
  id = pos 0;
  username = req.username;
  password_hash = hash;
  display_name = req.display_name;
  plan_name = p.name;
  monthly_limit = p.monthly_limit;
  rotation_on = false;
  enabled = true;
  allow_user_smtp = true;
  limit_per_sec = p.limit_per_sec;
  limit_per_min = p.limit_per_min;
  limit_per_hour = p.limit_per_hour;
  limit_per_day = p.limit_per_day;
  throttle_ms = p.throttle_ms;
  created_at = 0;
  updated_at = 0;
}

-- The assignments of `updateUser`.
abbrev pub edited_user : Account → User → User
edited_user a u = record u {
  display_name = a.display_name;
  plan_name = default_if_empty a.plan_name (codes "starter");
  monthly_limit = default_if_zero a.monthly_limit (pos 10000);
  rotation_on = a.rotation_on;
  enabled = a.enabled;
  allow_user_smtp = or_given u.allow_user_smtp a.allow_user_smtp;
  limit_per_sec = default_if_zero a.limit_per_sec (pos 5);
  limit_per_min = default_if_zero a.limit_per_min (pos 120);
  limit_per_hour = default_if_zero a.limit_per_hour (pos 3000);
  limit_per_day = default_if_zero a.limit_per_day (pos 20000);
  throttle_ms = a.throttle_ms;
}

-- The assignments of `setUserSMTPMode`.
abbrev pub with_mode : Bool → User → User
with_mode allow u =
    if allow
    then record u { allow_user_smtp = allow }
    else record u { allow_user_smtp = allow; rotation_on = false }

module _ (env : Env) where
  unfoldable pub list_users : H Response
  list_users = do users ← call server_error (Users.list env); give (ok_with (user_list users))

  unfoldable pub create_user : Result NewAccount → H Response
  create_user form = do
    req ← bind_json form
    hash ← call (always 500 (codes "password hash failed")) (Auth.hash_password env req.password)
    plan ←
        (if is_empty req.account.plan_name
          then look (Packages.get_default env)
          else give (err no_rows))
    id ←
        call bad_request
          (Users.create env (new_user req.username hash (chosen_terms req.account plan)))
    give (ok_created (created id))

  unfoldable pub update_user : Bytes → Result Account → H Response
  update_user id_text form = do
    id ← path_id (codes "invalid id") (parse_int64 id_text)
    req ← bind_json form
    u ← call (not_found (codes "user not found")) (Users.get_by_id env id)
    call server_error (Users.update env id (edited_user req u))
    give ok_done

  unfoldable pub set_user_smtp_mode : Bytes → Result Bool → H Response
  set_user_smtp_mode id_text form = do
    id ← path_id (codes "invalid id") (parse_int64 id_text)
    allow ← bind_json form
    u ← call (not_found (codes "user not found")) (Users.get_by_id env id)
    call server_error (Users.update env id (with_mode allow u))
    give ok_done

  -- After the user is known, `assignPackageToUser` and `userSelectPlan` are the same.
  apply_named : ℤ → Result Bytes → H Response
  apply_named user_id form = do
    package_name ← bind_json form
    pkg ←
        call (always 404 (codes "package not found"))
          (Packages.get_by_name env (trim_space package_name))
    call server_error (Users.apply_package env user_id pkg)
    give ok_done

  unfoldable pub assign_package_to_user : Bytes → Result Bytes → H Response
  unfolding apply_named
  assign_package_to_user id_text form = do
    user_id ← path_id (codes "invalid user id") (parse_int64 id_text)
    apply_named user_id form

  unfoldable pub set_password : Bytes → Result Bytes → H Response
  set_password id_text form = do
    id ← path_id (codes "invalid id") (parse_int64 id_text)
    password ← bind_json form
    hash ← call (always 500 (codes "password hash failed")) (Auth.hash_password env password)
    call server_error (Users.set_password env id hash)
    give ok_done

  unfoldable pub delete_user : Bytes → H Response
  delete_user id_text = do
    id ← path_id (codes "invalid id") (parse_int64 id_text)
    call server_error (Users.delete_hard env id)
    give ok_done

  unfoldable pub user_register : Result Registration → H Response
  user_register form = do
    req ← bind_json form
    hash ← call (always 500 (codes "password hash failed")) (Auth.hash_password env req.password)
    pkg ← call (always 500 (codes "default package not configured")) (Packages.get_default env)
    id ← call bad_request (Users.create env (registered_user req hash pkg))
    give (ok_created (registered id pkg.name))

  unfoldable pub user_me : ℤ → H Response
  user_me user_id = do
    u ← call (not_found (codes "user not found")) (Users.get_by_id env user_id)
    give (ok_with (user_item u))

  unfoldable pub user_select_plan : ℤ → Result Bytes → H Response
  unfolding apply_named
  user_select_plan user_id form = apply_named user_id form

  unfoldable pub user_set_rotation : ℤ → Result Bool → H Response
  user_set_rotation user_id form = do
    enabled ← bind_json form
    u ← call server_error (Users.get_by_id env user_id)
    refuse_if (not u.allow_user_smtp && enabled)
        (failed 403 (codes "rotation is disabled for system SMTP only accounts"))
    call server_error (Users.update env user_id (record u { rotation_on = enabled }))
    give ok_done
