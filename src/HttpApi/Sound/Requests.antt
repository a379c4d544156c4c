-- ===== src/HttpApi/Sound/Requests.antt =====
-- The handlers that assign or create a server keep the ownership, and so do all the others.
use smmail.Prelude.{
  ℕ, suc, ◌≡◌, ◌≤◌, refl, subst, count, true, false, Bytes, ℤ, pos, is_positive, Option, some, find,
  if◌then◌else◌, Bool-cases, inl, inr, arith,
}
use smmail.Models.{User, UpstreamSmtp}
use smmail.Models.Database.{Table, insert_row}
use smmail.Runtime.{Env, Result, ok, err}
use smmail.Repo.Smtps
use smmail.HttpApi.Forms.{OwnAssignment, Assignment, Server}
use smmail.HttpApi.Reply.{Site, look, give, created, ok_created, ◌>>◌}
use smmail.HttpApi.Values.{default_if_zero}
use smmail.HttpApi.Servers
use smmail.HttpApi.Servers.{is_foreign, server_row}
use smmail.HttpApi.Effects.{
  Within, validated-On, Runs-give, Runs, Runs-bind, Runs-call, Runs-bind_json, Runs-path_id,
  runs_rules, read_rules, user-On,
}
use smmail.HttpApi.Effects.Found.{
  found-Within, passed-Within, exec-Within, created-Within, dropped-Within,
}
use smmail.HttpApi.Handled.{UserWrites, AdminWrites}
use smmail.HttpApi.Sound.{has_id, suits}
use smmail.HttpApi.Sound.Tables.{last-suits}
use smmail.HttpApi.Sound.Writes.{
  Sounder, Sounder-order, Deletes-Sounder, apply_package-Sounder, unassign-Sounder, create-Sounder,
  set_password-Sounder, delete_hard-Sounder, upsert-Sounder, store_package-Sounder,
  set_default-Sounder, delete_package-Sounder, delete_smtp-Sounder, assigned-Sounder,
  created-Sounder, update-Sounder,
}

suits-found :
    (user_id : ℤ) (o : Option UpstreamSmtp) (item : UpstreamSmtp)
    → o ≡ some item
    → is_foreign user_id item ≡ false
    → suits user_id o ≡ true
suits-found user_id o item e h = ground (arith, e, h)

module _ (env : Env) where
  turn_rotation_on-Runs :
      (user_id : ℤ) (r : Result User) → Runs Sounder (Servers.turn_rotation_on env user_id r)
  unfolding Servers.turn_rotation_on
  turn_rotation_on-Runs user_id (ok u) = search (runs_rules, Sounder-order, update-Sounder)
  turn_rotation_on-Runs user_id (err e) = search (runs_rules, Sounder-order)

  user_assign_smtp-Runs :
      (user_id : ℤ) (form : Result OwnAssignment)
      → Runs Sounder (Servers.user_assign_smtp env user_id form)
  unfolding Servers.user_assign_smtp Smtps.get_by_id Smtps.assign_to_user
  user_assign_smtp-Runs user_id form =
      Runs-bind Sounder-order _ _ (Runs-call _ _ (user-On Sounder-order env user_id)) (λ u.
        Runs-bind Sounder-order _ _ (Runs-bind_json Sounder-order form) (λ req. record {
          at = λ s.
              found-Within Sounder-order env
                (λ db. find (has_id req.smtp_id) db.upstream_smtps.rows) _ _ s
                (λ item t e. passed-Within Sounder-order env _ _ _ t (λ a.
                  passed-Within Sounder-order env _ _ _ t (λ b.
                    exec-Within Sounder-order env _ _ _ t
                      (λ now.
                        assigned-Sounder env user_id req.smtp_id
                          (if is_positive (default_if_zero req.weight (pos 1))
                            then default_if_zero req.weight (pos 1)
                            else pos 1)
                          true now t.world.db (λ h. suits-found user_id _ item e b))
                      (λ x.
                        search (runs_rules, read_rules, Sounder-order, turn_rotation_on-Runs) depth
                          9))));
        }))

  assign_smtp_to_user-Runs :
      (text : Bytes) (form : Result Assignment)
      → Runs Sounder (Servers.assign_smtp_to_user env text form)
  unfolding Servers.assign_smtp_to_user Smtps.get_by_id Smtps.assign_to_user
  assign_smtp_to_user-Runs text form =
      Runs-bind Sounder-order _ _ (Runs-path_id Sounder-order _ _) (λ user_id.
        Runs-bind Sounder-order _ _ (Runs-bind_json Sounder-order form) (λ req.
          Runs-bind Sounder-order _ _ (Runs-call _ _ (user-On Sounder-order env user_id)) (λ u.
            record {
              at = λ s.
                  found-Within Sounder-order env
                    (λ db. find (has_id req.smtp_id) db.upstream_smtps.rows) _ _ s
                    (λ item t e. passed-Within Sounder-order env _ _ _ t (λ b.
                      exec-Within Sounder-order env _ _ _ t
                        (λ now.
                          assigned-Sounder env user_id req.smtp_id
                            (if is_positive (default_if_zero req.weight (pos 1))
                              then default_if_zero req.weight (pos 1)
                              else pos 1)
                            req.enabled now t.world.db (λ h. suits-found user_id _ item e b))
                        (λ x. search (runs_rules, Sounder-order))));
            })))

  -- The assignment of a server to its owner, behind its creation.
  owned-Within :
      (owner_user_id : ℤ) (row : UpstreamSmtp) (smtps : Table UpstreamSmtp) (t : Site)
      → row.owner_user_id ≡ owner_user_id
      → (now : ℕ)
      → t.world.db.upstream_smtps
        ≡ insert_row (λ id. record row { id = id; created_at = now }) smtps
      → Within Sounder t
          (((if is_positive owner_user_id
                then look
                    (Smtps.assign_to_user env owner_user_id (pos (suc smtps.last_id)) (pos 1) true)
                else give (ok tt))
              >> give (ok_created (created (pos (suc smtps.last_id)))))
            t).1
  unfolding Smtps.assign_to_user
  owned-Within owner_user_id row smtps t same now e =
      elim (Bool-cases (is_positive owner_user_id)) [
        | inl p ↦ rw p (
            dropped-Within Sounder-order env _ _ t
              (λ now'.
                assigned-Sounder env owner_user_id (pos (suc smtps.last_id)) (pos 1) true now'
                  t.world.db
                  (λ h. rw e (
                    last-suits owner_user_id smtps.rows
                      (record row { id = pos (suc smtps.last_id); created_at = now }) same
                      (subst
                        (λ (t' : Table UpstreamSmtp).
                          count (has_id (pos (suc smtps.last_id))) t'.rows ≤ 1)
                        e (h.servers.one_id (pos (suc smtps.last_id)))))))
              (λ r. Runs-give Sounder-order _))
        | inr p ↦ rw p (
            (Runs-bind Sounder-order _ _ (Runs-give Sounder-order _)
                (λ _. Runs-give Sounder-order _)).at
              t)
      ]

  pub create_smtp-Runs :
      (owner_user_id : ℤ) (form : Result Server)
      → Runs Sounder (Servers.create_smtp env owner_user_id form)
  unfolding Servers.create_smtp
  create_smtp-Runs owner_user_id form =
      Runs-bind Sounder-order _ _ (Runs-bind_json Sounder-order form) (λ req.
        Runs-bind Sounder-order _ _ (Runs-call _ _ (validated-On Sounder-order env _)) (λ _.
          record {
            at = λ s.
                created-Within Sounder-order env (server_row owner_user_id req) _ _ s
                  (λ now. created-Sounder env (server_row owner_user_id req) now s.world.db)
                  (λ now t e.
                    owned-Within owner_user_id (server_row owner_user_id req)
                      s.world.db.upstream_smtps t refl now e);
          }))

  user_delete_smtp-Runs :
      (user_id : ℤ) (text : Bytes) → Runs Sounder (Servers.user_delete_smtp env user_id text)
  unfolding Servers.user_delete_smtp
  user_delete_smtp-Runs user_id text =
      search (runs_rules, read_rules, Sounder-order, delete_smtp-Sounder) depth 12

  pub Sounder-UserWrites : (id : ℤ) → UserWrites Sounder env id
  Sounder-UserWrites id = record {
    others = record {
      deletes = Deletes-Sounder env id;
      update = update-Sounder env id;
      apply_package = apply_package-Sounder env id;
      unassign = unassign-Sounder env id;
      delete_smtp = user_delete_smtp-Runs id;
    };
    create_smtp = create_smtp-Runs id;
    assign_smtp = user_assign_smtp-Runs id;
  }

  pub Sounder-AdminWrites : AdminWrites Sounder env
  Sounder-AdminWrites = record {
    deletes = Deletes-Sounder env;
    create = create-Sounder env;
    update = update-Sounder env;
    apply_package = apply_package-Sounder env;
    set_password = set_password-Sounder env;
    delete_hard = delete_hard-Sounder env;
    upsert = upsert-Sounder env;
    store_package = store_package-Sounder env;
    set_default = set_default-Sounder env;
    delete_package = delete_package-Sounder env;
    unassign = unassign-Sounder env;
    create_smtp = create_smtp-Runs (pos 0);
    delete_smtp = delete_smtp-Sounder env;
    assign_smtp = assign_smtp_to_user-Runs;
  }
