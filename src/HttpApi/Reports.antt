-- ===== src/HttpApi/Reports.antt =====
-- The handlers for the usage reports.
use smmail.Prelude.{Bytes, codes, ℤ, pos}
use smmail.Runtime.{Env}
use smmail.Repo.Analytics
use smmail.Repo.Events
use smmail.HttpApi.Values.{parse_int, parse_int64}
use smmail.HttpApi.Reply.{
  H, Response, usage, usage_list, admin_overview, ok_with, give, call, server_error, not_found,
  path_id, ◌>>=◌,
}

module _ (env : Env) where
  unfoldable pub overview : H Response
  overview = do
    totals ← call server_error (Analytics.overview_totals env)
    users ← call server_error (Analytics.list_user_usage env (pos 10))
    events ← call server_error (Events.list env (pos 20) (pos 0) (pos 0))
    give (
        ok_with
          (admin_overview (record { totals = totals; top_users = users; recent_events = events })))

  unfoldable pub list_user_usage : Bytes → H Response
  list_user_usage limit = do
    items ← call server_error (Analytics.list_user_usage env (parse_int limit (pos 200)))
    give (ok_with (usage_list items))

  -- `userUsage` and `userUsageSelf`, for the user that is asked for.
  abbrev usage_of : ℤ → H Response
  usage_of user_id = do
    u ← call (not_found (codes "user not found")) (Analytics.user_usage env user_id)
    give (ok_with (usage u))

  unfoldable pub user_usage : Bytes → H Response
  user_usage id_text = do id ← path_id (codes "invalid id") (parse_int64 id_text); usage_of id

  unfoldable pub user_usage_self : ℤ → H Response
  user_usage_self user_id = usage_of user_id
