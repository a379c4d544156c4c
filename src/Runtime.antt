-- ===== src/Runtime.antt =====
-- What surrounds the program, and the actions that use it. `database/sql`, `net/smtp`, the clock
-- and bcrypt are no code of the repository: they answer through an `Env`, whose functions may
-- answer every call differently, since they see how many calls came before it. A call of the
-- database or of an upstream server takes one tick.
pub mod Effects
pub mod Kept
use smmail.Prelude.{
  ℕ, suc, ◌+◌, ◌*◌, ◌/◌, ◌%◌, ◌≡◌, refl, Bool, List, [], ◌∷◌, ◌++◌, Option, none, some, Bytes,
  codes, ℤ,
}
use smmail.Models.Database.{Database}

-- Go's `error`: `sql.ErrNoRows`, which the program compares with, or any other, by its text.
pub data Error : Type 0 where
  no_rows : Error
  message : Bytes → Error

-- `err.Error()`.
unfoldable pub error_text : Error → Bytes
error_text no_rows = codes "sql: no rows in result set"
error_text (message m) = m

pub data Result {ℓ} (A : Type ℓ) : Type ℓ where
  ok : A → Result A
  err : Error → Result A

-- The arguments of one call of `smtp.SendMail`.
pub record Transmission : Type 0 where
  pub host : Bytes
  pub port : ℤ
  -- An `smtp.Auth` is given, made of the two that follow.
  pub authenticated : Bool
  pub username : Bytes
  pub password : Bytes
  pub mail_from : Bytes
  pub recipients : List Bytes
  pub msg : Bytes

-- A server that answers the calls of a `net/smtp` client: each may fail.
pub record Peer : Type 0 where
  -- `net.DialTimeout`, for a host and a port, and `smtp.NewClient`.
  pub dial : Bytes → ℤ → Option Error
  pub new_client : Bytes → Option Error
  pub extension : Bytes → Bool
  pub start_tls : Bytes → Option Error
  -- `Auth(PlainAuth("", username, password, host))`.
  pub plain_auth : Bytes → Bytes → Bytes → Option Error
  pub mail : Bytes → Option Error
  pub reset : Option Error
  pub quit : Option Error

pub record Env : Type 0 where
  -- `time.Now()` and `CURRENT_TIMESTAMP`, in nanoseconds, at each tick.
  pub clock : ℕ → ℕ
  -- The statement at this tick fails with an error of the driver (`sql.ErrNoRows` is none: it stands
  -- for an empty answer), and then it has no effect.
  pub fault : ℕ → Option Bytes
  -- The result of `smtp.SendMail`.
  pub relay : ℕ → Transmission → Option Error
  -- SQLite's `DATETIME(…)` of a text, in seconds, or NULL.
  pub datetime : Bytes → Option ℕ
  -- SQLite's `DATETIME('now', 'start of month')`, in seconds, for a time in seconds.
  pub month_start : ℕ → ℕ
  -- `bcrypt.CompareHashAndPassword` returns nil.
  pub same_password : Bytes → Bytes → Bool
  -- `bcrypt.GenerateFromPassword`, which draws a salt.
  pub hash_password : ℕ → Bytes → Result Bytes
  -- `rand.Read`: as many bytes as asked for.
  pub random : ℕ → ℕ → Result Bytes
  -- The server at the other end of a connection.
  pub peer : ℕ → Peer

pub record World : Type 0 where
  pub db : Database
  -- `DeliveryService.rrIndex`: a user and the index that is next.
  pub rr_index : List (ℤ × ℕ)
  -- The calls of `smtp.SendMail` so far, oldest first, and their results.
  pub transmissions : List (Transmission × Option Error)
  pub ticks : ℕ

abbrev pub M : Type 0 → Type 0
M A = World → Result A × World

-- What a bind does with the result of its first part.
abbrev pub continue : {A B : Type 0} → (A → M B) → Result A → World → Result B × World
continue f (ok a) w = f a w
continue f (err e) w = (err e, w)

pub pure : {A : Type 0} → A → M A
pure a w = (ok a, w)

pub fail : {A : Type 0} → Error → M A
fail e w = (err e, w)

-- `r, err := m()`, for code that looks at the error itself.
pub attempt : {A : Type 0} → M A → M (Result A)
attempt m w = let (r, w') = m w in (ok r, w')

infixl 5 ◌>>=◌ ◌>>◌
-- Who opens this opens `pure`, `fail` and `attempt` too.
unfoldable pub ◌>>=◌ : {A B : Type 0} → M A → (A → M B) → M B
unfolding pure fail attempt
◌>>=◌ m f w = let (r, w') = m w in continue f r w'

abbrev pub ◌>>◌ : {A B : Type 0} → M A → M B → M B
m >> n = m >>= λ _. n

abbrev pub nanoseconds : ℕ
nanoseconds = 1000000000

abbrev pub tick : World → World
tick w = record w { ticks = suc w.ticks }

abbrev commit : {A : Type 0} → World → Result (A × Database) → Result A × World
commit w (ok (a, db)) = (ok a, record (tick w) { db = db })
commit w (err e) = (err e, tick w)

abbrev answer : {A : Type 0} → World → Result (A × Database) → Option Bytes → Result A × World
answer w r none = commit w r
answer w r (some m) = (err (message m), tick w)

module _ (env : Env) where
  -- `CURRENT_TIMESTAMP`, in seconds.
  abbrev pub timestamp : ℕ → ℕ
  timestamp n = env.clock n / nanoseconds

  -- A statement sees the time and the database, and gives a result and a new database, or violates a
  -- constraint.
  unfoldable pub statement : {A : Type 0} → (ℕ → Database → Result (A × Database)) → M A
  statement f w = answer w (f (timestamp w.ticks) w.db) (env.fault w.ticks)

  -- `db.Exec`.
  unfoldable pub exec : (ℕ → Database → Database) → M (Unit {0})
  unfolding statement
  exec f = statement λ now db. ok (tt, f now db)

  -- `db.Query` and `rows.Scan`.
  unfoldable pub query : {A : Type 0} → (ℕ → Database → A) → M A
  unfolding statement
  query f = statement λ now db. ok (f now db, db)

  -- `db.QueryRow` and `row.Scan`.
  unfoldable pub query_row : {A : Type 0} → (ℕ → Database → Option A) → M A
  unfolding statement
  query_row f = statement λ now db. elim (f now db) [ none ↦ err no_rows | some a ↦ ok (a, db) ]

  -- `time.Now()`.
  unfoldable pub time_now : M ℕ
  time_now w = (ok (env.clock w.ticks), w)

  -- `smtp.SendMail`.
  unfoldable pub send_mail : Transmission → M (Unit {0})
  send_mail t w =
      let reply = env.relay w.ticks t in
      (
        elim reply [ none ↦ ok tt | some e ↦ err e ],
        record (tick w) { transmissions = w.transmissions ++ (t, reply) ∷ [] },
      )
