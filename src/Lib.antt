-- ===== src/Lib.antt =====
-- Verification of smmail, an SMTP relay: clients hand mail in over SMTP, a worker sends it on through
-- the upstream servers that an account may use, within the limits of the account and of the
-- recipient's domain, and SQLite keeps accounts, rules, packages, servers, the queue and the events.
--
-- The parts, and the files that model them:
--   Models, Models.Database   internal/models/models.go and the tables of internal/db/db.go: a table
--                             is its rows in the order of their ids, and the last id it gave.
--   Runtime, Runtime.Effects  what is no code of the repository (the database driver, the clock,
--                             smtp.SendMail, bcrypt, SQLite's DATETIME) as an environment that may
--                             answer every call differently, and the actions that use it: an action
--                             takes the world (tables, rrIndex, what was sent, ticks) to a result or
--                             an error, and the new world. A statement that fails has no effect.
--   Repo                      internal/repo, one module for each repository, one action for each
--                             method.
--   Service.Send              internal/service/send.go: HandleMail, extractDomain.
--   Service.Auth              internal/service/auth.go: Validate, HashPassword.
--   Service.Limiter           internal/service/limiter.go: CheckAndInc, with time.Now() as an
--                             argument, since the whole call holds the lock.
--   Service.Delivery          internal/service/delivery.go: Run and process; holdIfLimited is in
--                             Service.Delivery.Limits, deliver and nextRR in Upstream, and
--                             rewriteFromHeader in Header.
--   Smtp                      internal/smtp/server.go: the methods of a session, called in any order.
--   HttpApi                   internal/httpapi/handler.go. Reply has the actions that handlers are made
--                             of: an action goes on with a value or sends an answer; the site is the
--                             world and the two session maps. Guards has the sessions, Forms the
--                             structs that are bound, Accounts, Plans, Logs, Servers, Probes and
--                             Reports the handlers, Values the helpers at the end of the file, and
--                             Router the routes. Effects, Grants, Handled, Sound, Isolation and
--                             Confined are proofs.
--   System                    what cmd/smtpd runs: requests, SMTP sessions and rounds of the worker, one
--                             after the other, as a step relation; and in System.Start how main opens
--                             the file. Kept, Writes, Packages and Start.Sound are proofs.
--   Db                        internal/db/db.go: in Db.Schema the tables, in Db.Migration OpenAndMigrate on
--                             a file, which has a schema and a world; addColumnIfMissing and the packages
--                             that it stores in Db itself.
--   Config                    internal/config/config.go: Load, getenv.
--   Fixture                   a small database on which the definitions are run.
--
-- The worker reads the queue, which HandleMail fills for the session's user; it reads users, rules,
-- servers and events, and writes events and the queue. Of the worker's goroutine a run is a list of
-- signals, ticks and the end of its context. Other goroutines that write the tables during a round
-- are left out, and so are the log.
--
-- Numbers: an `int` that a client chooses is an integer, a time is a number of nanoseconds, a column
-- of type DATETIME a number of seconds; a duration that the code multiplies wraps at 64 bits, and the
-- difference of two times is cut to that range, as in Go's `time`. Texts are lists of bytes;
-- `strings.ToLower` and `strings.TrimSpace` are read on ASCII, and other bytes stay as they are. All loops
-- are structural, so that no fuel is needed.
--
-- An HTTP request is a route with the headers that the guards read and the forms as gin has parsed
-- them: a form that is not accepted is an error with its text. Requests are served one at a time;
-- a handler that stops early has sent its answer.
--
-- Not modelled: gin's routing, the static pages and JSON; how cmd/smtpd starts and stops the servers,
-- which are calls of libraries; requests that run at one time.
pub mod Prelude
pub mod Config
pub mod Models
pub mod Runtime
pub mod Repo
pub mod Service
pub mod Db
pub mod Smtp
pub mod HttpApi
pub mod System
pub mod Fixture
