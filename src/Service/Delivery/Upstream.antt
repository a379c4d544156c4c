-- ===== src/Service/Delivery/Upstream.antt =====
-- internal/service/delivery.go: the upstream servers of a user, and the delivery of an item.
use smmail.Prelude.{
  ℕ, ◌+◌, ◌%◌, true, ◌==◌, leb, Bytes, codes, is_empty, decimal, ℤ, eqb_ℤ, List, [], ◌∷◌, ◌++◌,
  none, some, length, get_elem?, if◌then◌else◌,
}
use smmail.Models.{QueueItem, UpstreamSmtp}
use smmail.Runtime.{Env, M, message, ok, err, send_mail, pure, fail, attempt, ◌>>=◌}
use smmail.Repo.Users
use smmail.Repo.Smtps
use smmail.Service.Delivery.Header.{rewrite_from_header}

-- `rrIndex[userID]`, which is 0 if it is not there.
unfoldable pub rr_lookup : ℤ → List (ℤ × ℕ) → ℕ
rr_lookup user_id [] = 0
rr_lookup user_id ((k, i) ∷ rest) = if eqb_ℤ k user_id then i else rr_lookup user_id rest

unfoldable pub rr_store : ℤ → ℕ → List (ℤ × ℕ) → List (ℤ × ℕ)
rr_store user_id i [] = (user_id, i) ∷ []
rr_store user_id i ((k, j) ∷ rest) =
    if eqb_ℤ k user_id then (k, i) ∷ rest else (k, j) ∷ rr_store user_id i rest

-- `if idx >= n { idx = 0 }`.
abbrev pub in_range : ℕ → ℕ → ℕ
in_range n idx = if leb n idx then 0 else idx

unfoldable pub next_rr : ℤ → ℕ → M ℕ
next_rr user_id n w =
    let idx = in_range n (rr_lookup user_id w.rr_index) in
    (ok idx, record w { rr_index = rr_store user_id ((idx + 1) % n) w.rr_index })

-- `assigned[idx]`, as a list of one account.
abbrev pub pick : ℕ → List UpstreamSmtp → List UpstreamSmtp
pick idx assigned = elim (get_elem? assigned idx) [ none ↦ [] | some acc ↦ acc ∷ [] ]

-- The accounts from index `i` on but the one at `idx`.
abbrev pub others : ℕ → ℕ → List UpstreamSmtp → List UpstreamSmtp
others i idx [] = []
others i idx (acc ∷ rest) =
    if i == idx then others (i + 1) idx rest else acc ∷ others (i + 1) idx rest

-- The order in which a user with rotation tries the accounts.
abbrev pub rotated : ℕ → List UpstreamSmtp → List UpstreamSmtp
rotated idx assigned = pick idx assigned ++ others 0 idx assigned

abbrev pub sender : QueueItem → UpstreamSmtp → Bytes
sender item acc = if is_empty acc.from_email then item.mail_from else acc.from_email

module _ (env : Env) where
  unfoldable pub deliver_by_account : QueueItem → UpstreamSmtp → M (Unit {0})
  deliver_by_account item acc = send_mail env (record {
    host = acc.host;
    port = acc.port;
    authenticated = true;
    username = acc.username;
    password = acc.password;
    mail_from = sender item acc;
    recipients = item.rcpt_to ∷ [];
    msg = rewrite_from_header item.body (sender item acc);
  })

  -- Each account in turn, until one takes the message.
  unfoldable pub try_accounts : QueueItem → Bytes → List UpstreamSmtp → M (Unit {0})
  try_accounts item failure [] = fail (message failure)
  try_accounts item failure (acc ∷ rest) =
      let next = try_accounts item failure rest in
      (do sent ← attempt (deliver_by_account item acc); elim sent [ ok _ ↦ pure tt | err _ ↦ next ])

  unfoldable pub deliver : QueueItem → M (Unit {0})
  deliver item = do
    user ← Users.get_by_id env item.user_id
    assigned ← Smtps.list_assigned env item.user_id
    if length assigned == 0
        then fail
            (message (codes "no assigned/enabled upstream smtp for user " ++ decimal item.user_id))
        else if user.rotation_on
        then (do
          idx ← next_rr item.user_id (length assigned)
          try_accounts item (codes "all assigned smtp accounts failed") (rotated idx assigned))
        else try_accounts item (codes "assigned smtp accounts failed") assigned
