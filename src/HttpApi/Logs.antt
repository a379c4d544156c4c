-- ===== src/HttpApi/Logs.antt =====
-- The handlers that list and delete the events and the pending mails. A query parameter is given as
-- its text, which is empty when it is absent.
use smmail.Prelude.{◌||◌, Bytes, codes, eqb, is_empty, trim_space, ℤ, pos, if◌then◌else◌}
use smmail.Runtime.{Env, M, Result}
use smmail.Repo.Events
use smmail.Repo.Queue
use smmail.HttpApi.Values.{parse_int}
use smmail.HttpApi.Forms.{Deletion, UserDeletion}
use smmail.HttpApi.Reply.{
  H, Response, event_page, item_page, ok_done, ok_with, failed, send, give, call, server_error,
  bind_json, ◌>>=◌, ◌>>◌,
}

-- The `switch` on the mode, for the three deletions of a repository.
unfoldable pub delete_rows :
    M (Unit {0}) → (ℤ → M (Unit {0})) → M (Unit {0}) → Deletion → H (Unit {0})
delete_rows all since_days date_range req =
    if eqb req.mode (codes "all")
    then call server_error all
    else if eqb req.mode (codes "last_7_days")
    then call server_error (since_days (pos 7))
    else if eqb req.mode (codes "last_15_days")
    then call server_error (since_days (pos 15))
    else if eqb req.mode (codes "custom")
    then if is_empty (trim_space req.from_date) || is_empty (trim_space req.to_date)
      then send (failed 400 (codes "from_date and to_date are required for custom mode"))
      else call server_error date_range
    else send (failed 400 (codes "invalid mode"))

module _ (env : Env) where
  -- A page of the events, and of the pending mails, of a user, or of all for the user 0.
  abbrev event_listing : ℤ → ℤ → ℤ → H Response
  event_listing limit user_id offset = do
    items ← call server_error (Events.list env limit user_id offset)
    total ← call server_error (Events.count_all env user_id)
    give (ok_with (event_page items total limit offset))

  abbrev pending_listing : ℤ → ℤ → ℤ → H Response
  pending_listing limit user_id offset = do
    items ← call server_error (Queue.list_pending env limit user_id offset)
    total ← call server_error (Queue.count_pending env user_id)
    give (ok_with (item_page items total limit offset))

  unfoldable pub event_deletion : ℤ → Deletion → H Response
  event_deletion user_id req = do
    delete_rows (Events.delete_all env user_id) (Events.delete_since_days env user_id)
        (Events.delete_date_range env user_id req.from_date req.to_date) req
    give ok_done

  unfoldable pub pending_deletion : ℤ → Deletion → H Response
  pending_deletion user_id req = do
    delete_rows (Queue.delete_pending_all env user_id) (Queue.delete_pending_since_days env user_id)
        (Queue.delete_pending_date_range env user_id req.from_date req.to_date) req
    give ok_done

  unfoldable pub list_events : Bytes → Bytes → Bytes → H Response
  list_events limit user_id offset =
      event_listing (parse_int limit (pos 25)) (parse_int user_id (pos 0))
        (parse_int offset (pos 0))

  unfoldable pub delete_events_admin : Result UserDeletion → H Response
  delete_events_admin form = do req ← bind_json form; event_deletion req.user_id req.deletion

  unfoldable pub user_events : ℤ → Bytes → Bytes → H Response
  user_events user_id limit offset =
      event_listing (parse_int limit (pos 25)) user_id (parse_int offset (pos 0))

  unfoldable pub delete_events_user : ℤ → Result Deletion → H Response
  delete_events_user user_id form = do req ← bind_json form; event_deletion user_id req

  unfoldable pub list_pending_admin : Bytes → Bytes → Bytes → H Response
  list_pending_admin limit user_id offset =
      pending_listing (parse_int limit (pos 25)) (parse_int user_id (pos 0))
        (parse_int offset (pos 0))

  unfoldable pub delete_pending_admin : Result UserDeletion → H Response
  delete_pending_admin form = do req ← bind_json form; pending_deletion req.user_id req.deletion

  unfoldable pub user_pending : ℤ → Bytes → Bytes → H Response
  user_pending user_id limit offset =
      pending_listing (parse_int limit (pos 25)) user_id (parse_int offset (pos 0))

  unfoldable pub delete_pending_user : ℤ → Result Deletion → H Response
  delete_pending_user user_id form = do req ← bind_json form; pending_deletion user_id req
