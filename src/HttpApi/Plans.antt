-- ===== src/HttpApi/Plans.antt =====
-- The handlers for the packages and the domain rules.
use smmail.Prelude.{false, Bytes, codes, is_empty, trim_space, ℤ, pos}
use smmail.Models.{PackagePlan}
use smmail.Runtime.{Env, Result}
use smmail.Repo.Packages
use smmail.Repo.Domains
use smmail.HttpApi.Values.{parse_int64, default_if_zero}
use smmail.HttpApi.Forms.{Package, Rule}
use smmail.HttpApi.Reply.{
  H, Response, package_list, rule_list, ok_done, ok_with, failed, give, call, server_error,
  bad_request, bind_json, path_id, refuse_if, ◌>>=◌, ◌>>◌,
}

-- The row of `createOrUpdatePackage`.
abbrev pub plan_of : Package → PackagePlan
plan_of req = record {
  id = pos 0;
  name = req.name;
  monthly_limit = default_if_zero req.monthly_limit (pos 10000);
  limit_per_sec = default_if_zero req.limit_per_sec (pos 5);
  limit_per_min = default_if_zero req.limit_per_min (pos 120);
  limit_per_hour = default_if_zero req.limit_per_hour (pos 3000);
  limit_per_day = default_if_zero req.limit_per_day (pos 20000);
  throttle_ms = req.throttle_ms;
  is_default = false;
  created_at = 0;
}

module _ (env : Env) where
  unfoldable pub list_packages : H Response
  list_packages = do
    items ← call server_error (Packages.list env)
    give (ok_with (package_list items))

  unfoldable pub create_or_update_package : Result Package → H Response
  create_or_update_package form = do
    req ← bind_json form
    call server_error (Packages.create_or_update env (plan_of req))
    give ok_done

  unfoldable pub set_default_package : Result Bytes → H Response
  set_default_package form = do
    name ← bind_json form
    call server_error (Packages.set_default env name)
    give ok_done

  unfoldable pub delete_package : Bytes → H Response
  delete_package name_text = do
    refuse_if (is_empty (trim_space name_text)) (failed 400 (codes "invalid package name"))
    call bad_request (Packages.delete env (trim_space name_text))
    give ok_done

  -- The user that the guard has found is not asked for.
  unfoldable pub user_list_packages : ℤ → H Response
  user_list_packages user_id = do
    items ← call server_error (Packages.list env)
    give (ok_with (package_list items))

  unfoldable pub list_domain_throttles : Bytes → H Response
  list_domain_throttles id_text = do
    id ← path_id (codes "invalid user id") (parse_int64 id_text)
    items ← call server_error (Domains.list_by_user env id)
    give (ok_with (rule_list items))

  unfoldable pub upsert_domain_throttle : Bytes → Result Rule → H Response
  upsert_domain_throttle id_text form = do
    id ← path_id (codes "invalid user id") (parse_int64 id_text)
    req ← bind_json form
    call server_error (
        Domains.upsert env id req.domain (default_if_zero req.limit_per_hour (pos 1000))
          req.throttle_ms)
    give ok_done
