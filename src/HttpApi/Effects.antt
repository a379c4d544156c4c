-- ===== src/HttpApi/Effects.antt =====
-- Rules for the actions of the handlers: what they keep, by the way they are built.
pub mod Found
use smmail.Prelude.{
  ℕ, ◌≡◌, refl, ◌∙◌, Bool, true, false, Bytes, ℤ, Option, none, some, if◌then◌else◌,
}
use smmail.Models.Database.{Database}
use smmail.Runtime.{Env, Transmission, send_mail, M, Error, Result, ok, err}
use smmail.Runtime.Effects.{Steps, Steps-if}
use smmail.Runtime.Kept.{
  IsDatabaseOrder, On, On-query, On-query_row, On-bind, On-pure, On-send_mail, On-fail,
}
use smmail.Models.{UpstreamSmtp}
use smmail.Service.Auth
use smmail.HttpApi.Probes
use smmail.Repo.Users
use smmail.Repo.Domains
use smmail.Repo.Events
use smmail.Repo.Queue
use smmail.Repo.Packages
use smmail.Repo.Smtps
use smmail.Repo.Analytics
use smmail.HttpApi.Reply.{
  Site, Answer, go, reply, H, Response, proceed, or_reply, send, give, call, look, bind_json,
  path_id, refuse_if, ◌>>=◌, UserSession, AdminSession,
}

-- The databases are related, and the sessions are the same.
pub record Within (D : Database → Database → Type 0) (s s' : Site) : Type 0 where
  pub kept : D s.world.db s'.world.db
  pub sessions_same : s'.sessions ≡ s.sessions
  pub admin_same : s'.admin_sess ≡ s.admin_sess

pub record Runs (D : Database → Database → Type 0) {A : Type 0} (m : H A) : Type 0 where
  pub at : (s : Site) → Within D s (m s).1

module _ {D : Database → Database → Type 0} (order : IsDatabaseOrder D) where
  pub Within-same : (s : Site) → Within D s s
  Within-same s = record { kept = order.same s.world.db; sessions_same = refl; admin_same = refl }

  pub Within-chain : (s t u : Site) → Within D s t → Within D t u → Within D s u
  Within-chain s t u p q = record {
    kept = order.chain s.world.db t.world.db u.world.db p.kept q.kept;
    sessions_same = q.sessions_same ∙ p.sessions_same;
    admin_same = q.admin_same ∙ p.admin_same;
  }

  pub Runs-give : {A : Type 0} (a : A) → Runs D (give a)
  unfolding give
  Runs-give a = record { at = λ s. Within-same s }

  pub Runs-send : {A : Type 0} (r : Response) → Runs D (send {A = A} r)
  unfolding send
  Runs-send r = record { at = λ s. Within-same s }

  proceed-Within :
      {A B : Type 0} (f : A → H B) (a : Answer A) (s t : Site)
      → Within D s t
      → ((x : A) → Runs D (f x))
      → Within D s (proceed f a t).1
  proceed-Within f (go x) s t h k = Within-chain s t (f x t).1 h ((k x).at t)
  proceed-Within f (reply r) s t h k = h

  pub Runs-bind :
      {A B : Type 0} (m : H A) (f : A → H B)
      → Runs D m
      → ((a : A) → Runs D (f a))
      → Runs D (m >>= f)
  unfolding ◌>>=◌
  Runs-bind m f h k = record { at = λ s. proceed-Within f (m s).0 s (m s).1 (h.at s) k }

  pub Runs-bind_json : {A : Type 0} (form : Result A) → Runs D (bind_json form)
  Runs-bind_json (ok req) = Runs-give req
  Runs-bind_json (err e) = Runs-send _

  pub Runs-path_id : (text : Bytes) (id : Option ℤ) → Runs D (path_id text id)
  Runs-path_id text none = Runs-send _
  Runs-path_id text (some id) = Runs-give id

  pub Runs-refuse_if : (b : Bool) (r : Response) → Runs D (refuse_if b r)
  Runs-refuse_if true r = Runs-send r
  Runs-refuse_if false r = Runs-give tt

  pub get_by_username-On :
      (env : Env) (name : Bytes) → Steps (On D) (Users.get_by_username env name)
  unfolding Users.get_by_username
  get_by_username-On env name = On-query_row order env _

  pub user-On : (env : Env) (id : ℤ) → Steps (On D) (Users.get_by_id env id)
  unfolding Users.get_by_id
  user-On env id = On-query_row order env _

  pub users-On : (env : Env) → Steps (On D) (Users.list env)
  unfolding Users.list
  users-On env = On-query order env _

  pub rules-On : (env : Env) (id : ℤ) → Steps (On D) (Domains.list_by_user env id)
  unfolding Domains.list_by_user
  rules-On env id = On-query order env _

  pub events-On : (env : Env) (limit id offset : ℤ) → Steps (On D) (Events.list env limit id offset)
  unfolding Events.list
  events-On env limit id offset = On-query order env _

  pub count_all-On : (env : Env) (id : ℤ) → Steps (On D) (Events.count_all env id)
  unfolding Events.count_all
  count_all-On env id = On-query order env _

  pub pending-On :
      (env : Env) (limit id offset : ℤ) → Steps (On D) (Queue.list_pending env limit id offset)
  unfolding Queue.list_pending
  pending-On env limit id offset = On-query order env _

  pub count_pending-On : (env : Env) (id : ℤ) → Steps (On D) (Queue.count_pending env id)
  unfolding Queue.count_pending
  count_pending-On env id = On-query order env _

  pub packages-On : (env : Env) → Steps (On D) (Packages.list env)
  unfolding Packages.list
  packages-On env = On-query order env _

  pub default-On : (env : Env) → Steps (On D) (Packages.get_default env)
  unfolding Packages.get_default
  default-On env = On-query_row order env _

  pub named-On : (env : Env) (name : Bytes) → Steps (On D) (Packages.get_by_name env name)
  unfolding Packages.get_by_name
  named-On env name = On-query_row order env _

  pub smtps-On : (env : Env) (id : ℤ) → Steps (On D) (Smtps.list env id)
  unfolding Smtps.list
  smtps-On env id = On-query order env _

  pub available-On : (env : Env) (id : ℤ) → Steps (On D) (Smtps.list_available_for_user env id)
  unfolding Smtps.list_available_for_user
  available-On env id = On-query order env _

  pub smtp-On : (env : Env) (id : ℤ) → Steps (On D) (Smtps.get_by_id env id)
  unfolding Smtps.get_by_id
  smtp-On env id = On-query_row order env _

  pub assigned-On : (env : Env) (id : ℤ) → Steps (On D) (Smtps.list_assigned env id)
  unfolding Smtps.list_assigned
  assigned-On env id = On-query order env _

  pub totals-On : (env : Env) → Steps (On D) (Analytics.overview_totals env)
  unfolding Analytics.overview_totals
  totals-On env = search (On-bind, On-pure, On-query) depth 16

  pub usages-On : (env : Env) (limit : ℤ) → Steps (On D) (Analytics.list_user_usage env limit)
  unfolding Analytics.list_user_usage
  usages-On env limit = On-query order env _

  pub usage-On : (env : Env) (id : ℤ) → Steps (On D) (Analytics.user_usage env id)
  unfolding Analytics.user_usage
  usage-On env id = On-query_row order env _

  pub validated-On :
      (env : Env) (acc : UpstreamSmtp) → Steps (On D) (Probes.validate_smtp_credentials env acc)
  unfolding Probes.validate_smtp_credentials
  validated-On env acc = record { at = λ w. record { kept = order.same w.db } }

  pub stored_test-On :
      (env : Env) (acc : UpstreamSmtp) (to subject text : Bytes)
      → Steps (On D) (Probes.send_stored_smtp_test env acc to subject text)
  unfolding Probes.send_stored_smtp_test
  stored_test-On env acc to subject text = search (On-send_mail, On-fail, Steps-if)

  pub mail_test-On : (env : Env) (t : Transmission) → Steps (On D) (send_mail env t)
  mail_test-On env t = On-send_mail order env t

  pub hash-On : (env : Env) (password : Bytes) → Steps (On D) (Auth.hash_password env password)
  unfolding Auth.hash_password
  hash-On env password = record { at = λ w. record { kept = order.same w.db } }

module _ {D : Database → Database → Type 0} where
  pub Runs-call : {A : Type 0} (f : Error → Response) (m : M A) → Steps (On D) m → Runs D (call f m)
  unfolding call
  Runs-call f m h = record {
    at = λ s. record { kept = (h.at s.world).kept; sessions_same = refl; admin_same = refl };
  }

  pub Runs-look : {A : Type 0} (m : M A) → Steps (On D) m → Runs D (look m)
  unfolding look
  Runs-look m h = record {
    at = λ s. record { kept = (h.at s.world).kept; sessions_same = refl; admin_same = refl };
  }

  pub Runs-if :
      {A : Type 0} (b : Bool) (m n : H A) → Runs D m → Runs D n → Runs D (if b then m else n)
  Runs-if true m n h k = h
  Runs-if false m n h k = k

pub ruleset runs_rules = (
  Runs-give, Runs-send, Runs-bind, Runs-bind_json, Runs-path_id, Runs-refuse_if, Runs-call,
  Runs-look, Runs-if,
)

pub ruleset read_rules = (
  get_by_username-On, user-On, users-On, rules-On, events-On, count_all-On, pending-On,
  count_pending-On, packages-On, default-On, named-On, smtps-On, available-On, smtp-On, assigned-On,
  totals-On, usages-On, usage-On, validated-On, stored_test-On, mail_test-On, hash-On,
)
