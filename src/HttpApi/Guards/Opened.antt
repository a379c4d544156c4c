-- ===== src/HttpApi/Guards/Opened.antt =====
-- A login opens a session for 24 hours.
use smmail.Prelude.{
  ℕ, ◌≡◌, ◌+◌, ◌/◌, refl, true, Bytes, codes, eqb, ltb, ℤ, find, get_key, some, if◌then◌else◌,
  arith,
}
use smmail.Models.{User}
use smmail.Runtime.{Env, M, Error, Result, ok, err, nanoseconds}
use smmail.HttpApi.Forms.{Login}
use smmail.HttpApi.Reply.{
  Site, Answer, go, reply, H, Response, Body, user_token, UserSession, proceed, or_reply, call,
  failed, ◌>>=◌,
}
use smmail.HttpApi.Guards.{now, session_time}

-- A bind that gives a value has had a first part that gave one.
proceed-eq_go :
    {A B : Type 0} (f : A → H B) (r : Answer A) (t : Site) (b : B)
    → (proceed f r t).0 ≡ go b
    → (a : A) × (r ≡ go a) × ((f a t).0 ≡ go b) × ((proceed f r t).1 ≡ (f a t).1)
proceed-eq_go f (go a) t b h = (a, refl, h, refl)
proceed-eq_go f (reply x) t b h = ground (arith, h)

pub bind-eq_go :
    {A B : Type 0} (m : H A) (f : A → H B) (s : Site) (b : B)
    → ((m >>= f) s).0 ≡ go b
    → (a : A) × ((m s).0 ≡ go a) × ((f a (m s).1).0 ≡ go b) × (((m >>= f) s).1 ≡ (f a (m s).1).1)
unfolding ◌>>=◌
bind-eq_go m f s b h = proceed-eq_go f (m s).0 (m s).1 b h

or_reply-eq_go :
    {A : Type 0} (f : Error → Response) (r : Result A) (a : A) → or_reply f r ≡ go a → r ≡ ok a
or_reply-eq_go f (ok b) a e = ground (arith, e)
or_reply-eq_go f (err x) a e = ground (arith, e)

module _ (env : Env) where
  -- What the guard says to the token of a session.
  abbrev pub answer_to : UserSession → Site → Answer ℤ
  answer_to sess t =
      if ltb sess.expires_at (now env t)
      then reply (failed 401 (codes "invalid or expired user token"))
      else go sess.user_id

  -- What `userLogin` has done when it gives an answer.
  record Opened (req : Login) (s : Site) (body : Body) (s' : Site) : Type 0 where
    user : User
    token : Bytes
    since : ℕ
    found : find (λ v. eqb v.username req.username) s.world.db.users.rows ≡ some user
    enabled : user.enabled ≡ true
    fits : env.same_password user.password_hash req.password ≡ true
    answer : body ≡ user_token token ((since + session_time) / nanoseconds) user.id
    stored :
        get_key token s'.sessions
        ≡ some (record { user_id = user.id; expires_at = since + session_time })

  pub call-eq_go :
      {A : Type 0} (f : Error → Response) (m : M A) (s : Site) (a : A)
      → (call f m s).0 ≡ go a
      → (m s.world).0 ≡ ok a
  unfolding call
  call-eq_go f m s a h = or_reply-eq_go f (m s.world).0 a h
