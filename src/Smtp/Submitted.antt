-- ===== src/Smtp/Submitted.antt =====
-- A whole session that hands in one mail.
use smmail.Prelude.{
  ◌≡◌, refl, sym, ap, ◌∙◌, false, Bytes, eqb_ℤ, pos, List, [], ◌∷◌, ◌++◌, map, append-nil,
  append_assoc,
}
use smmail.Models.{User}
use smmail.Runtime.{Env, World, Result, ok, err, continue, pure, ◌>>=◌}
use smmail.Service.Auth.{validate}
use smmail.Service.Send.{handle_mail}
use smmail.Smtp.{
  Session, new_session, SaslServer, checked_name, Command, authenticate, mail, rcpt, data_read,
  kept, is_anonymous, handle_from, handle_auth, handle_data, deliver_read, handle, serve,
}

abbrev pub dialogue : SaslServer → Bytes → Bytes → Bytes → List Bytes → Bytes → List Command
dialogue server name pass from rcpts body =
    authenticate server name pass ∷ mail from ∷ (map rcpt rcpts ++ data_read (ok body) ∷ [])

abbrev of_user : Session → World → Result User → Session × World
of_user s v (ok x) = (record s { user = x }, v)
of_user s v (err e) = (s, v)

module _ (env : Env) where
  abbrev with_recipients : Session → List Bytes → Session
  with_recipients s rcpts = record s { recipients = s.recipients ++ rcpts }

  serve-rcpts :
      (rcpts : List Bytes) (rest : List Command) (s : Session) (w : World)
      → serve env (map rcpt rcpts ++ rest) s w ≡ serve env rest (with_recipients s rcpts) w
  unfolding serve handle ◌>>=◌
  serve-rcpts [] rest s w =
      ap (λ (r : List Bytes). serve env rest (record s { recipients = r }) w)
        (sym (append-nil s.recipients))
  serve-rcpts (r ∷ rcpts) rest s w =
      serve-rcpts rcpts rest (record s { recipients = s.recipients ++ r ∷ [] }) w
      ∙ ap (λ (l : List Bytes). serve env rest (record s { recipients = l }) w)
          (append_assoc s.recipients (r ∷ []) rcpts)

  -- The result of the submission leaves the session.
  submitted :
      (s : Session) (r : Result (Unit {0})) (v : World)
      → (let (r', v') = continue (λ (u : Unit {0}). pure s) r v in
          ◌≡◌ {A = Session × World} (kept s r', v') (s, v))
  unfolding ◌>>=◌
  submitted s (ok u) v = refl
  submitted s (err e) v = refl

  serve-data :
      (s : Session) (body : Bytes) (w : World)
      → is_anonymous s ≡ false
      → serve env (data_read (ok body) ∷ []) s w
        ≡ (s, (handle_mail env s.user s.mail_from s.recipients body w).1)
  unfolding serve handle handle_data deliver_read ◌>>=◌
  serve-data s body w e = rw e (
      submitted s (handle_mail env s.user s.mail_from s.recipients body w).0
        (handle_mail env s.user s.mail_from s.recipients body w).1)

  authenticated :
      (s : Session) (r : Result User) (u : User) (v : World)
      → r ≡ ok u
      → (let (r', v') = continue (λ x. pure (record s { user = x })) r v in
          ◌≡◌ {A = Session × World} (kept s r', v') (record s { user = u }, v))
  unfolding ◌>>=◌
  authenticated s (ok x) u v e = ap (λ (r : Result User). of_user s v r) e
  authenticated s (err x) u v e = absurd cc

  serve-from :
      (from : Bytes) (rest : List Command) (s : Session) (w : World)
      → is_anonymous s ≡ false
      → serve env (mail from ∷ rest) s w
        ≡ serve env rest (record s { mail_from = from; recipients = [] }) w
  unfolding serve handle handle_from ◌>>=◌
  serve-from from rest s w e = rw (e, serve) refl

  -- A client that authenticates as a user, names a sender and recipients and sends a message has the
  -- effect of one call of HandleMail for this user with this sender, all these recipients in their order
  -- and this message.
  pub serve-dialogue :
      (server : SaslServer) (name pass from : Bytes) (rcpts : List Bytes) (body : Bytes) (u : User)
      (w : World)
      → (validate env (checked_name server name) pass w).0 ≡ ok u
      → eqb_ℤ u.id (pos 0) ≡ false
      → serve env (dialogue server name pass from rcpts body) new_session w ≡ (
        record { user = u; mail_from = from; recipients = rcpts },
        (handle_mail env u from rcpts body (validate env (checked_name server name) pass w).1).1,
      )
  unfolding serve handle handle_auth handle_from ◌>>=◌
  serve-dialogue server name pass from rcpts body u w e known =
      let v = (validate env (checked_name server name) pass w).1 in
      let rest = map rcpt rcpts ++ data_read (ok body) ∷ [] in
      ap (λ (p : Session × World). serve env (mail from ∷ rest) p.0 p.1)
        (authenticated new_session (validate env (checked_name server name) pass w).0 u v e)
      ∙ serve-from from rest (record new_session { user = u }) v known
      ∙ serve-rcpts rcpts (data_read (ok body) ∷ [])
          (record { user = u; mail_from = from; recipients = [] }) v
      ∙ serve-data (record { user = u; mail_from = from; recipients = rcpts }) body v known
