-- ===== src/Smtp/Kept.antt =====
-- What an SMTP session keeps, from what the statements of the submission keep.
use smmail.Prelude.{Bytes, List, [], ◌∷◌}
use smmail.Models.Database.{Database}
use smmail.Runtime.{Env, World, Result, ok, err}
use smmail.Runtime.Effects.{Steps, Steps-if}
use smmail.Runtime.Kept.{IsDatabaseOrder, On, On-pure, On-fail, On-bind}
use smmail.Service.Auth.{validate}
use smmail.Service.Auth.Valid.{validate-tick}
use smmail.Service.Send.Kept.{MailWrites, handle_mail-On}
use smmail.Smtp.{
  Session, Command, authenticate, mail, rcpt, data_read, reset, logout, kept, handle_auth,
  handle_from, handle_data, deliver_read, handle, serve,
}

module _ {D : Database → Database → Type 0} (order : IsDatabaseOrder D) (env : Env)
    (laws : MailWrites D env) where
  validate-On : (name password : Bytes) → Steps (On D) (validate env name password)
  validate-On name password = record {
    at = λ w. rw (validate-tick env name password w) (record { kept = order.same w.db });
  }

  deliver_read-On : (r : Result Bytes) (s : Session) → Steps (On D) (deliver_read env r s)
  unfolding deliver_read
  deliver_read-On (ok body) s =
      On-bind order _ _ (handle_mail-On order env laws s.user s.mail_from s.recipients body)
        (λ x. On-pure order s)
  deliver_read-On (err e) s = On-fail order e

  handle-On : (c : Command) (s : Session) → Steps (On D) (handle env c s)
  unfolding handle handle_auth handle_from handle_data
  handle-On (authenticate server user pass) s =
      On-bind order _ _ (validate-On _ pass) (λ u. On-pure order _)
  handle-On (mail from) s = Steps-if _ _ _ (On-fail order _) (On-pure order _)
  handle-On (rcpt to) s = On-pure order _
  handle-On (data_read body) s = Steps-if _ _ _ (On-fail order _) (deliver_read-On body s)
  handle-On reset s = On-pure order s
  handle-On logout s = On-pure order s

  pub serve-On :
      (commands : List Command) (s : Session) (w : World) → On D w (serve env commands s w).1
  unfolding serve
  serve-On [] s w = record { kept = order.same w.db }
  serve-On (c ∷ rest) s w =
      let step = (handle-On c s).at w in
      let next = serve-On rest (kept s (handle env c s w).0) (handle env c s w).1 in
      record { kept = order.chain w.db (handle env c s w).1.db _ step.kept next.kept }
