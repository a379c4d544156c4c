-- ===== src/Service/Delivery/Accepted.antt =====
-- What has happened when `deliver` returns no error.
use smmail.Prelude.{
  ◌<◌, ◌≡◌, refl, ◌∙◌, ap, sym, subst, Bool, true, false, Bytes, codes, List, ◌++◌, ◌==◌, length,
  if◌then◌else◌, arith, Option, decimal, ℤ, eqb_ℤ, find,
}
use mathlib.Core.List.{Perm}
use mathlib.Core.List.Perm
use smmail.Models.{QueueItem, UpstreamSmtp, User}
use smmail.Runtime.{Env, World, M, Error, message, Transmission, ok, tick, fail, ◌>>=◌}
use smmail.Runtime.Effects.{bind-eq_ok, query-eq_ok, query-tick, query_row-tick}
use smmail.Repo.Users
use smmail.Repo.Smtps
use smmail.Repo.Smtps.{joined}
use smmail.Service.Delivery.{deliver, next_rr, rr_lookup, rotated, try_accounts}
use smmail.Service.Delivery.Accounts.{Tried, outcome_of, try_accounts-Tried}
use smmail.Service.Delivery.Rotation.{turn, rotated-Perm, in_range-lt}

-- The accounts that are assigned and enabled are tried in some order, until one takes the mail.
pub record IsAccepted (item : QueueItem) (assigned : List UpstreamSmtp) (w w' : World)
    : Type 0 where
  pub accounts : List UpstreamSmtp
  pub same_accounts : Perm accounts assigned
  pub log : List (Transmission × Option Error)
  pub tried : Tried item accounts log true
  pub sent : w'.transmissions ≡ w.transmissions ++ log

module _ (env : Env) where
  ok_true : (failure : Bytes) (b : Bool) → outcome_of failure b ≡ ok tt → b ≡ true
  ok_true failure true h = refl
  ok_true failure false h = cc

  try_accounts-IsAccepted :
      (item : QueueItem) (failure : Bytes) (accs assigned : List UpstreamSmtp) (w : World)
      → Perm accs assigned
      → (try_accounts env item failure accs w).0 ≡ ok tt
      → IsAccepted item assigned w (try_accounts env item failure accs w).1
  try_accounts-IsAccepted item failure accs assigned w p h =
      let (log, b, tried, sent, result) = try_accounts-Tried env item failure accs w in
      record {
        accounts = accs;
        same_accounts = p;
        log = log;
        tried =
            subst (λ (x : Bool). Tried item accs log x) (ok_true failure b (sym result ∙ h)) tried;
        sent = sent;
      }

  -- What `deliver` does with the assigned accounts.
  by_assigned : QueueItem → User → List UpstreamSmtp → M (Unit {0})
  by_assigned item user assigned =
      if length assigned == 0
      then fail
          (message (codes "no assigned/enabled upstream smtp for user " ++ decimal item.user_id))
      else if user.rotation_on
      then (do
        idx ← next_rr item.user_id (length assigned)
        try_accounts env item (codes "all assigned smtp accounts failed") (rotated idx assigned))
      else try_accounts env item (codes "assigned smtp accounts failed") assigned

  some_account : (accs : List UpstreamSmtp) → length accs == 0 ≡ false → 0 < length accs
  some_account accs h = ground arith

  branch_cases :
      (b c : Bool) (e : Error) (m n : M (Unit {0})) (w : World) (Q : World → Type 0)
      → ((if b then fail e else if c then m else n) w).0 ≡ ok tt
      → (b ≡ false → (m w).0 ≡ ok tt → Q (m w).1)
      → (b ≡ false → (n w).0 ≡ ok tt → Q (n w).1)
      → Q ((if b then fail e else if c then m else n) w).1
  unfolding ◌>>=◌
  branch_cases true c e m n w Q h f g = absurd cc
  branch_cases false true e m n w Q h f g = f refl h
  branch_cases false false e m n w Q h f g = g refl h

  by_rotation : QueueItem → List UpstreamSmtp → M (Unit {0})
  by_rotation item assigned = do
    idx ← next_rr item.user_id (length assigned)
    try_accounts env item (codes "all assigned smtp accounts failed") (rotated idx assigned)

  by_rotation-IsAccepted :
      (item : QueueItem) (assigned : List UpstreamSmtp) (w : World)
      → 0 < length assigned
      → (by_rotation item assigned w).0 ≡ ok tt
      → IsAccepted item assigned w (by_rotation item assigned w).1
  unfolding by_rotation next_rr ◌>>=◌
  by_rotation-IsAccepted item assigned w some_there h =
      let n = length assigned in
      let idx = turn item.user_id n w in
      let a =
        try_accounts-IsAccepted item _ (rotated idx assigned) assigned (next_rr item.user_id n w).1
          (rotated-Perm idx assigned (in_range-lt n (rr_lookup item.user_id w.rr_index) some_there))
          h in
      record {
        accounts = a.accounts;
        same_accounts = a.same_accounts;
        log = a.log;
        tried = a.tried;
        sent = a.sent;
      }

  by_assigned-IsAccepted :
      (item : QueueItem) (user : User) (assigned : List UpstreamSmtp) (w : World)
      → (by_assigned item user assigned w).0 ≡ ok tt
      → IsAccepted item assigned w (by_assigned item user assigned w).1
  unfolding by_assigned by_rotation
  by_assigned-IsAccepted item user assigned w h =
      branch_cases (length assigned == 0) user.rotation_on _ _ _ w
        (λ v. IsAccepted item assigned w v) h
        (λ e k. by_rotation-IsAccepted item assigned w (some_account assigned e) k)
        (λ e k. try_accounts-IsAccepted item _ assigned assigned w (Perm.refl assigned) k)

  get_by_id-tick : (id : ℤ) (w : World) → (Users.get_by_id env id w).1 ≡ tick w
  unfolding Users.get_by_id
  get_by_id-tick id w = query_row-tick env (λ now db. find (λ u. eqb_ℤ u.id id) db.users.rows) w

  list_assigned-tick : (id : ℤ) (w : World) → (Smtps.list_assigned env id w).1 ≡ tick w
  unfolding Smtps.list_assigned
  list_assigned-tick id w =
      query-tick env (λ now db. joined id db.upstream_smtps.rows db.user_smtp_assignments.rows) w

  pub list_assigned-eq_ok :
      (id : ℤ) (w : World) (assigned : List UpstreamSmtp)
      → (Smtps.list_assigned env id w).0 ≡ ok assigned
      → assigned ≡ joined id w.db.upstream_smtps.rows w.db.user_smtp_assignments.rows
  unfolding Smtps.list_assigned
  list_assigned-eq_ok id w assigned h =
      query-eq_ok env (λ now db. joined id db.upstream_smtps.rows db.user_smtp_assignments.rows) w
        assigned h

  -- When `deliver` returns no error, the accounts that are assigned to the user and enabled were
  -- tried in some order, each with the mail for that account, until one took the mail, and nothing
  -- else was sent.
  pub deliver-IsAccepted :
      (item : QueueItem) (w : World)
      → (deliver env item w).0 ≡ ok tt
      → IsAccepted item
          (joined item.user_id w.db.upstream_smtps.rows w.db.user_smtp_assignments.rows)
          w
          (deliver env item w).1
  unfolding deliver by_assigned
  deliver-IsAccepted item w h =
      let m1 = Users.get_by_id env item.user_id in
      let m2 = Smtps.list_assigned env item.user_id in
      let (user, got, h1, e1) =
        bind-eq_ok m1 (λ user. do assigned ← m2; by_assigned item user assigned) w tt h in
      let (assigned, listed, h2, e2) =
        bind-eq_ok m2 (λ assigned. by_assigned item user assigned) (m1 w).1 tt h1 in
      let u = (m1 w).1 in
      let v = (m2 u).1 in
      let a = by_assigned-IsAccepted item user assigned v h2 in
      let t1 = get_by_id-tick item.user_id w in
      let t2 = list_assigned-tick item.user_id u in
      record {
        accounts = a.accounts;
        same_accounts =
            subst (λ (x : List UpstreamSmtp). Perm a.accounts x)
              (list_assigned-eq_ok item.user_id u assigned listed
                ∙ ap
                    (λ (x : World).
                      joined item.user_id x.db.upstream_smtps.rows x.db.user_smtp_assignments.rows)
                    t1)
              a.same_accounts;
        log = a.log;
        tried = a.tried;
        sent =
            ap (λ (x : World). x.transmissions) (e1 ∙ e2)
            ∙ a.sent
            ∙ ap (λ (x : World). x.transmissions ++ a.log) (t2 ∙ ap (λ (x : World). tick x) t1);
      }
