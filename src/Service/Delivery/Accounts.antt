-- ===== src/Service/Delivery/Accounts.antt =====
-- Which accounts the worker tries, and when it stops.
use smmail.Prelude.{
  ◌≡◌, refl, ◌∙◌, ap, sym, Bool, true, false, Bytes, List, [], ◌∷◌, ◌++◌, append_assoc, append-nil,
  Option, none, some, Option-cases, inl, inr, if◌then◌else◌,
}
use smmail.Models.{QueueItem, UpstreamSmtp}
use smmail.Runtime.{
  Env, World, Error, message, Transmission, Result, ok, err, tick, ◌>>=◌, send_mail,
}
use smmail.Service.Delivery.{sender, deliver_by_account, try_accounts}
use smmail.Service.Delivery.Header.{rewrite_from_header}

-- The mail for an account.
abbrev pub mail_by : QueueItem → UpstreamSmtp → Transmission
mail_by item acc = record {
  host = acc.host;
  port = acc.port;
  authenticated = true;
  username = acc.username;
  password = acc.password;
  mail_from = sender item acc;
  recipients = item.rcpt_to ∷ [];
  msg = rewrite_from_header item.body (sender item acc);
}

-- How the accounts of a list are tried: each in turn, until one takes the mail.
pub data Tried (item : QueueItem)
    : List UpstreamSmtp → List (Transmission × Option Error) → Bool → Type 0 where
  exhausted : Tried item [] [] false
  taken :
      (acc : UpstreamSmtp) (rest : List UpstreamSmtp)
      → Tried item (acc ∷ rest) ((mail_by item acc, none) ∷ []) true
  refused :
      (acc : UpstreamSmtp) (rest : List UpstreamSmtp) (e : Error)
      (log : List (Transmission × Option Error)) (b : Bool)
      → Tried item rest log b
      → Tried item (acc ∷ rest) ((mail_by item acc, some e) ∷ log) b

abbrev pub outcome_of : Bytes → Bool → Result (Unit {0})
outcome_of failure b = if b then ok tt else err (message failure)

abbrev pub logged : World → Transmission → Option Error → World
logged w t reply = record (tick w) { transmissions = w.transmissions ++ (t, reply) ∷ [] }

module _ (env : Env) where
  by_account-taken :
      (item : QueueItem) (acc : UpstreamSmtp) (w : World)
      → env.relay w.ticks (mail_by item acc) ≡ none
      → deliver_by_account env item acc w ≡ (ok tt, logged w (mail_by item acc) none)
  unfolding deliver_by_account send_mail
  by_account-taken item acc w e = rw e refl

  by_account-refused :
      (item : QueueItem) (acc : UpstreamSmtp) (w : World) (f : Error)
      → env.relay w.ticks (mail_by item acc) ≡ some f
      → deliver_by_account env item acc w ≡ (err f, logged w (mail_by item acc) (some f))
  unfolding deliver_by_account send_mail
  by_account-refused item acc w f e = rw e refl

  pub try_accounts-taken :
      (item : QueueItem) (failure : Bytes) (acc : UpstreamSmtp) (rest : List UpstreamSmtp)
      (w : World)
      → env.relay w.ticks (mail_by item acc) ≡ none
      → try_accounts env item failure (acc ∷ rest) w ≡ (ok tt, logged w (mail_by item acc) none)
  unfolding try_accounts ◌>>=◌
  try_accounts-taken item failure acc rest w e = rw (by_account-taken item acc w e) refl

  pub try_accounts-refused :
      (item : QueueItem) (failure : Bytes) (acc : UpstreamSmtp) (rest : List UpstreamSmtp)
      (w : World) (f : Error)
      → env.relay w.ticks (mail_by item acc) ≡ some f
      → try_accounts env item failure (acc ∷ rest) w
        ≡ try_accounts env item failure rest (logged w (mail_by item acc) (some f))
  unfolding try_accounts ◌>>=◌
  try_accounts-refused item failure acc rest w f e = rw (by_account-refused item acc w f e) refl

  -- The worker tries the accounts in the order of the list, each at most once, with the mail for that
  -- account; it stops at the first that takes the mail, and fails if there is none.
  pub try_accounts-Tried :
      (item : QueueItem) (failure : Bytes) (accs : List UpstreamSmtp) (w : World)
      → (log : List (Transmission × Option Error)) × (b : Bool) × Tried item accs log b
        × ((try_accounts env item failure accs w).1.transmissions ≡ w.transmissions ++ log)
        × ((try_accounts env item failure accs w).0 ≡ outcome_of failure b)
  unfolding try_accounts ◌>>=◌
  try_accounts-Tried item failure [] w =
      ([], false, exhausted, sym (append-nil w.transmissions), refl)
  try_accounts-Tried item failure (acc ∷ rest) w =
      let t = mail_by item acc in
      elim (Option-cases (env.relay w.ticks t)) [
        | inl e ↦ (
          (t, none) ∷ [],
          true,
          taken acc rest,
          ap (λ (r : Result (Unit {0}) × World). r.1.transmissions)
              (try_accounts-taken item failure acc rest w e),
          ap (λ (r : Result (Unit {0}) × World). r.0)
              (try_accounts-taken item failure acc rest w e),
        )
        | inr (f, e) ↦
            let (log, b, h, sent, result) =
              try_accounts-Tried item failure rest (logged w t (some f)) in
            let step = try_accounts-refused item failure acc rest w f e in
            (
              (t, some f) ∷ log,
              b,
              refused acc rest f log b h,
              ap (λ (r : Result (Unit {0}) × World). r.1.transmissions) step
                  ∙ sent
                  ∙ append_assoc w.transmissions _ _,
              ap (λ (r : Result (Unit {0}) × World). r.0) step ∙ result,
            )
      ]
