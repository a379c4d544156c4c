-- ===== src/System.antt =====
-- The program as a whole: cmd/smtpd starts the HTTP server, the SMTP server and the worker on one
-- database. A step is an HTTP request, an SMTP session or a round of the worker.
pub mod Kept
pub mod Writes
pub mod Packages
pub mod Start
pub mod Tests
use smmail.Prelude.{ℕ, ◌≡◌, refl, Bytes, ℤ, eqb_ℤ, is_positive, List}
use smmail.Config.{Config}
use smmail.Models.{MailEvent, QueueItem}
use smmail.Models.Database.{Database}
use smmail.Runtime.{Env, World, exec}
use smmail.Runtime.Effects.{Steps}
use smmail.Runtime.Kept.{On, On-exec}
use smmail.Repo.Events
use smmail.Repo.Queue
use smmail.Service.Delivery.{process}
use smmail.Service.Delivery.Kept.{process-On}
use smmail.Service.Send.Kept.{MailWrites}
use smmail.Smtp.{Command, new_session}
use smmail.Smtp
use smmail.Smtp.Kept.{serve-On}
use smmail.HttpApi.Reply.{Site, go}
use smmail.HttpApi.Guards.{Headers, user_auth}
use smmail.HttpApi.Router.{Request, Route, UserRoute, serve}
use smmail.HttpApi.Sound.{IsSound}
use smmail.HttpApi.Sound.Writes.{Sounder, Sounder-order}
use smmail.HttpApi.Sound.Served.{IsSecure, serve-IsSecure}
use smmail.HttpApi.Isolation.{SameFor}
use smmail.HttpApi.Isolation.Served.{serve_user-SameFor}

module _ (env : Env) (cfg : Config) where
  -- The sites that the program can come to from a site.
  pub data Reaches (s : Site) : Site → Type 0 where
    here : Reaches s s
    request : (t : Site) (req : Request) → Reaches s t → Reaches s (serve env cfg req t).1
    session :
        (t : Site) (commands : List Command)
        → Reaches s t
        → Reaches s (record t { world = (Smtp.serve env commands new_session t.world).1 })
    round : (t : Site) → Reaches s t → Reaches s (record t { world = (process env t.world).1 })

module _ (env : Env) where
  untouched :
      (f : ℕ → Database → Database)
      → ((now : ℕ) (db : Database) → IsSound db → IsSound (f now db))
      → Steps (On Sounder) (exec env f)
  untouched f h = On-exec Sounder-order env f (λ now db. record { sound = h now db })

  mail-MailWrites : MailWrites Sounder env
  unfolding Queue.mark_sent Queue.mark_retry Queue.mark_failed Queue.defer Queue.enqueue
      Events.create
  mail-MailWrites = record {
    mark_sent =
        λ id. untouched _ (λ now db h. record { positive = h.positive; servers = h.servers });
    mark_retry =
        λ id e. untouched _ (λ now db h. record { positive = h.positive; servers = h.servers });
    mark_failed =
        λ id e. untouched _ (λ now db h. record { positive = h.positive; servers = h.servers });
    defer = λ id e wait.
        untouched _ (λ now db h. record { positive = h.positive; servers = h.servers });
    enqueue =
        λ item. untouched _ (λ now db h. record { positive = h.positive; servers = h.servers });
    create = λ e. untouched _ (λ now db h. record { positive = h.positive; servers = h.servers });
  }

  kept-IsSecure :
      (t : Site) (w : World) → On Sounder t.world w → IsSecure t → IsSecure (record t { world = w })
  kept-IsSecure t w h sec = record { database = h.kept.sound sec.database; users = sec.users }

  -- Whatever requests, sessions and rounds of the worker the program runs, with any failures, it comes
  -- only to sites where an assignment names a server of the system or of its user, the ids of the
  -- servers differ and those of the users are positive, and a session has a positive user id, if it
  -- started at such a site.
  pub Reaches-IsSecure : (cfg : Config) (s t : Site) → Reaches env cfg s t → IsSecure s → IsSecure t
  Reaches-IsSecure cfg s t here sec = sec
  Reaches-IsSecure cfg s _ (request t req r) sec =
      serve-IsSecure env cfg req t (Reaches-IsSecure cfg s t r sec)
  Reaches-IsSecure cfg s _ (session t commands r) sec =
      kept-IsSecure t _ (serve-On Sounder-order env mail-MailWrites commands new_session t.world)
        (Reaches-IsSecure cfg s t r sec)
  Reaches-IsSecure cfg s _ (round t r) sec =
      kept-IsSecure t _ ((process-On Sounder-order env mail-MailWrites).at t.world)
        (Reaches-IsSecure cfg s t r sec)
