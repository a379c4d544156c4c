-- ===== src/Repo/Smtps.antt =====
-- internal/repo/smtp_repo.go.
use smmail.Prelude.{
  Bool, ◌&&◌, ◌||◌, ℤ, pos, suc, eqb_ℤ, is_positive, leb_ℤ, List, [], ◌∷◌, ◌++◌, filter, find, any,
  reverse, sort_by, if◌then◌else◌,
}
use smmail.Models.{UpstreamSmtp, UserSmtpAssignment}
use smmail.Models.Database.{insert_row, skip_id, update_rows, delete_rows}
use smmail.Runtime.{Env, M, ok, statement, exec, query, query_row, ◌>>◌}

-- The key of the table: UNIQUE(user_id, smtp_id).
abbrev pub is_assignment : ℤ → ℤ → UserSmtpAssignment → Bool
is_assignment user_id smtp_id a = eqb_ℤ a.user_id user_id && eqb_ℤ a.smtp_id smtp_id

-- `FROM user_smtp_assignments a JOIN upstream_smtps s ON s.id=a.smtp_id WHERE …`.
abbrev pub joined : ℤ → List UpstreamSmtp → List UserSmtpAssignment → List UpstreamSmtp
joined user_id smtps [] = []
joined user_id smtps (a ∷ rest) =
    (if eqb_ℤ a.user_id user_id && a.enabled
      then filter (λ s. eqb_ℤ s.id a.smtp_id && s.enabled) smtps
      else [])
    ++ joined user_id smtps rest

module _ (env : Env) where
  unfoldable pub create : UpstreamSmtp → M ℤ
  create s = statement env λ now db. ok (
    pos (suc db.upstream_smtps.last_id),
    record db {
      upstream_smtps = insert_row (λ id. record s { id = id; created_at = now }) db.upstream_smtps;
    },
  )

  unfoldable pub list : ℤ → M (List UpstreamSmtp)
  list owner_user_id =
      query env
        λ now db. reverse (filter (λ s. eqb_ℤ s.owner_user_id owner_user_id) db.upstream_smtps.rows)

  unfoldable pub list_available_for_user : ℤ → M (List UpstreamSmtp)
  list_available_for_user user_id = query env λ now db.
      sort_by (λ s t. leb_ℤ s.owner_user_id t.owner_user_id)
        (filter (λ s. s.enabled && (eqb_ℤ s.owner_user_id (pos 0) || eqb_ℤ s.owner_user_id user_id))
          db.upstream_smtps.rows)

  unfoldable pub get_by_id : ℤ → M UpstreamSmtp
  get_by_id id = query_row env λ now db. find (λ s. eqb_ℤ s.id id) db.upstream_smtps.rows

  unfoldable pub assign_to_user : ℤ → ℤ → ℤ → Bool → M (Unit {0})
  assign_to_user user_id smtp_id weight enabled =
      let weight' = if is_positive weight then weight else pos 1 in
      exec env λ now db. record db {
        user_smtp_assignments =
            if any (is_assignment user_id smtp_id) db.user_smtp_assignments.rows
            then update_rows (is_assignment user_id smtp_id)
                (λ a. record a { weight = weight'; enabled = enabled })
                (skip_id db.user_smtp_assignments)
            else insert_row
                (λ id. record {
                  id = id;
                  user_id = user_id;
                  smtp_id = smtp_id;
                  weight = weight';
                  enabled = enabled;
                  created_at = now;
                })
                db.user_smtp_assignments;
      }

  unfoldable pub list_assigned : ℤ → M (List UpstreamSmtp)
  list_assigned user_id =
      query env λ now db. joined user_id db.upstream_smtps.rows db.user_smtp_assignments.rows

  unfoldable pub unassign_from_user : ℤ → ℤ → M (Unit {0})
  unassign_from_user user_id smtp_id = exec env λ now db. record db {
    user_smtp_assignments = delete_rows (is_assignment user_id smtp_id) db.user_smtp_assignments;
  }

  unfoldable pub delete_smtp : ℤ → M (Unit {0})
  delete_smtp smtp_id = do
    exec env (λ now db. record db {
      user_smtp_assignments =
          delete_rows (λ (a : UserSmtpAssignment). eqb_ℤ a.smtp_id smtp_id)
            db.user_smtp_assignments;
    })
    exec env (λ now db. record db {
      upstream_smtps = delete_rows (λ (s : UpstreamSmtp). eqb_ℤ s.id smtp_id) db.upstream_smtps;
    })
