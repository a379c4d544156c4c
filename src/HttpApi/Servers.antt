-- ===== src/HttpApi/Servers.antt =====
-- The handlers for the upstream servers and their assignments.
use smmail.Prelude.{
  Bool, true, not, ◌&&◌, Bytes, codes, ◌++◌, ℤ, pos, eqb_ℤ, is_positive, List, [], filter,
  if◌then◌else◌,
}
use smmail.Models.{User, UpstreamSmtp}
use smmail.Runtime.{Env, Error, error_text, Result, ok, err}
use smmail.Repo.Users
use smmail.Repo.Smtps
use smmail.HttpApi.Values.{parse_int64, default_if_zero}
use smmail.HttpApi.Forms.{Server, Assignment, OwnAssignment}
use smmail.HttpApi.Probes.{validate_smtp_credentials}
use smmail.HttpApi.Reply.{
  H, Response, created, smtp_list, ok_done, ok_created, ok_with, failed, send, give, call, look,
  server_error, always, bind_json, path_id, refuse_if, ◌>>=◌, ◌>>◌,
}

-- `check` of `createSMTP`, and the row that it creates.
abbrev pub server_row : ℤ → Server → UpstreamSmtp
server_row owner_user_id req = record {
  id = pos 0;
  owner_user_id = owner_user_id;
  name = req.name;
  host = req.host;
  port = default_if_zero req.port (pos 587);
  username = req.username;
  password = req.password;
  from_email = req.from_email;
  enabled = req.enabled;
  created_at = 0;
}

abbrev validation_failed : Error → Response
validation_failed e = failed 400 (codes "smtp validation failed: " ++ error_text e)

-- `smtpItem.OwnerUserID != 0 && smtpItem.OwnerUserID != userID`.
abbrev pub is_foreign : ℤ → UpstreamSmtp → Bool
is_foreign user_id s = not (eqb_ℤ s.owner_user_id (pos 0)) && not (eqb_ℤ s.owner_user_id user_id)

-- The loop of `userAvailableSMTP`.
abbrev pub offered : User → List UpstreamSmtp → List UpstreamSmtp
offered u items =
    if u.allow_user_smtp then items else filter (λ s. eqb_ℤ s.owner_user_id (pos 0)) items

module _ (env : Env) where
  unfoldable pub list_admin_smtps : H Response
  list_admin_smtps = do
    items ← call server_error (Smtps.list env (pos 0))
    give (ok_with (smtp_list items))

  -- The error of the assignment is dropped.
  unfoldable pub create_smtp : ℤ → Result Server → H Response
  create_smtp owner_user_id form = do
    req ← bind_json form
    call validation_failed (validate_smtp_credentials env (server_row owner_user_id req))
    id ← call server_error (Smtps.create env (server_row owner_user_id req))
    (if is_positive owner_user_id
        then look (Smtps.assign_to_user env owner_user_id id (pos 1) true)
        else give (ok tt))
    give (ok_created (created id))

  unfoldable pub create_admin_smtp : Result Server → H Response
  create_admin_smtp form = create_smtp (pos 0) form

  unfoldable pub delete_smtp_admin : Bytes → H Response
  delete_smtp_admin id_text = do
    smtp_id ← path_id (codes "invalid smtp id") (parse_int64 id_text)
    call server_error (Smtps.delete_smtp env smtp_id)
    give ok_done

  unfoldable pub assign_smtp_to_user : Bytes → Result Assignment → H Response
  assign_smtp_to_user id_text form = do
    user_id ← path_id (codes "invalid user id") (parse_int64 id_text)
    req ← bind_json form
    call (always 404 (codes "user not found")) (Users.get_by_id env user_id)
    item ← call (always 404 (codes "smtp not found")) (Smtps.get_by_id env req.smtp_id)
    refuse_if (is_foreign user_id item) (failed 400 (codes "smtp account is owned by another user"))
    call server_error (
        Smtps.assign_to_user env user_id req.smtp_id (default_if_zero req.weight (pos 1))
          req.enabled)
    give ok_done

  unfoldable pub list_user_smtp_assign : Bytes → H Response
  list_user_smtp_assign id_text = do
    user_id ← path_id (codes "invalid user id") (parse_int64 id_text)
    items ← call server_error (Smtps.list_assigned env user_id)
    give (ok_with (smtp_list items))

  unfoldable pub unassign_smtp_admin : Bytes → Bytes → H Response
  unassign_smtp_admin id_text smtp_text = do
    user_id ← path_id (codes "invalid user id") (parse_int64 id_text)
    smtp_id ← path_id (codes "invalid smtp id") (parse_int64 smtp_text)
    call server_error (Smtps.unassign_from_user env user_id smtp_id)
    give ok_done

  unfoldable pub user_list_smtps : ℤ → H Response
  user_list_smtps user_id = do
    u ← call server_error (Users.get_by_id env user_id)
    if u.allow_user_smtp
        then (do
          items ← call server_error (Smtps.list env user_id)
          give (ok_with (smtp_list items)))
        else send (ok_with (smtp_list []))

  unfoldable pub user_available_smtp : ℤ → H Response
  user_available_smtp user_id = do
    u ← call server_error (Users.get_by_id env user_id)
    items ← call server_error (Smtps.list_available_for_user env user_id)
    give (ok_with (smtp_list (offered u items)))

  unfoldable pub user_assigned_smtps : ℤ → H Response
  user_assigned_smtps user_id = do
    items ← call server_error (Smtps.list_assigned env user_id)
    give (ok_with (smtp_list items))

  unfoldable pub user_create_smtp : ℤ → Result Server → H Response
  user_create_smtp user_id form = do
    u ← call server_error (Users.get_by_id env user_id)
    refuse_if (not u.allow_user_smtp)
        (failed 403 (codes "your account is restricted to system SMTP only"))
    create_smtp user_id form

  unfoldable pub user_delete_smtp : ℤ → Bytes → H Response
  user_delete_smtp user_id id_text = do
    smtp_id ← path_id (codes "invalid smtp id") (parse_int64 id_text)
    item ← call (always 404 (codes "smtp not found")) (Smtps.get_by_id env smtp_id)
    refuse_if (not (eqb_ℤ item.owner_user_id user_id)) (failed 403 (codes "not allowed"))
    call server_error (Smtps.delete_smtp env smtp_id)
    give ok_done

  -- The end of `userAssignSMTP`: errors are dropped.
  unfoldable pub turn_rotation_on : ℤ → Result User → H (Unit {0})
  turn_rotation_on user_id (err e) = give tt
  turn_rotation_on user_id (ok u) = do
    look (Users.update env user_id (record u { rotation_on = true }))
    give tt

  unfoldable pub user_assign_smtp : ℤ → Result OwnAssignment → H Response
  user_assign_smtp user_id form = do
    u ← call server_error (Users.get_by_id env user_id)
    req ← bind_json form
    item ← call (always 404 (codes "smtp not found")) (Smtps.get_by_id env req.smtp_id)
    refuse_if (not u.allow_user_smtp && not (eqb_ℤ item.owner_user_id (pos 0)))
        (failed 403 (codes "only system SMTP can be assigned for this account"))
    refuse_if (is_foreign user_id item) (failed 403 (codes "not allowed to assign this smtp"))
    call server_error
        (Smtps.assign_to_user env user_id req.smtp_id (default_if_zero req.weight (pos 1)) true)
    (if req.rotation
        then (do again ← look (Users.get_by_id env user_id); turn_rotation_on user_id again)
        else give tt)
    give ok_done

  unfoldable pub user_unassign_smtp : ℤ → Bytes → H Response
  user_unassign_smtp user_id smtp_text = do
    smtp_id ← path_id (codes "invalid smtp id") (parse_int64 smtp_text)
    call server_error (Smtps.unassign_from_user env user_id smtp_id)
    give ok_done
