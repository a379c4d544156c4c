-- ===== src/HttpApi/Reply.antt =====
-- What a handler answers, and the actions that handlers are made of: an action goes on with a value,
-- or sends an answer, after which the handler returns.
use smmail.Prelude.{ℕ, Bool, Bytes, ℤ, List, Option, none, some, if◌then◌else◌}
use smmail.Models.{
  User, DomainThrottle, MailEvent, QueueItem, PackagePlan, UpstreamSmtp, UserUsage, AdminOverview,
}
use smmail.Runtime.{World, M, Error, no_rows, message, error_text, Result, ok, err}

-- The bodies of the answers, where `gin.H` holds the fields in this order.
pub data Body : Type 0 where
  -- `error`
  failure : Bytes → Body
  -- `ok`, and `message`
  done sent : Body
  -- `id`, and `package`
  created : ℤ → Body
  registered : ℤ → Bytes → Body
  -- `token`, `expires_at`, and `user_id`
  admin_token : Bytes → ℕ → Body
  user_token : Bytes → ℕ → ℤ → Body
  user_item : User → Body
  user_list : List User → Body
  rule_list : List DomainThrottle → Body
  package_list : List PackagePlan → Body
  smtp_list : List UpstreamSmtp → Body
  -- `items`, `total`, `limit`, `offset`
  event_page : List MailEvent → ℕ → ℤ → ℤ → Body
  item_page : List QueueItem → ℕ → ℤ → ℤ → Body
  usage : UserUsage → Body
  usage_list : List UserUsage → Body
  admin_overview : AdminOverview → Body

pub record Response : Type 0 where
  pub status : ℕ
  pub body : Body

abbrev pub ok_done : Response
ok_done = record { status = 200; body = done }

abbrev pub ok_with : Body → Response
ok_with body = record { status = 200; body = body }

abbrev pub ok_created : Body → Response
ok_created body = record { status = 201; body = body }

-- `c.JSON(status, gin.H{"error": text})`.
abbrev pub failed : ℕ → Bytes → Response
failed status text = record { status = status; body = failure text }

-- `userSession` and `adminSession`; a time is in nanoseconds.
pub record UserSession : Type 0 where
  pub user_id : ℤ
  pub expires_at : ℕ

pub record AdminSession : Type 0 where
  pub expires_at : ℕ

-- The state that the handlers share: the two maps of `Handler`, and the world.
pub record Site : Type 0 where
  pub world : World
  pub sessions : List (Bytes × UserSession)
  pub admin_sess : List (Bytes × AdminSession)

pub data Answer (A : Type 0) : Type 0 where
  go : A → Answer A
  reply : Response → Answer A

abbrev pub H : Type 0 → Type 0
H A = Site → Answer A × Site

abbrev pub proceed : {A B : Type 0} → (A → H B) → Answer A → Site → Answer B × Site
proceed f (go a) s = f a s
proceed f (reply r) s = (reply r, s)

infixl 5 ◌>>=◌ ◌>>◌
unfoldable pub ◌>>=◌ : {A B : Type 0} → H A → (A → H B) → H B
◌>>=◌ m f s = let (a, s') = m s in proceed f a s'

abbrev pub ◌>>◌ : {A B : Type 0} → H A → H B → H B
m >> n = m >>= λ _. n

-- `c.JSON(…); return`.
unfoldable pub send : {A : Type 0} → Response → H A
send r s = (reply r, s)

unfoldable pub give : {A : Type 0} → A → H A
give a s = (go a, s)

-- `x, err := m(); if err != nil { c.JSON(…); return }`.
abbrev pub or_reply : {A : Type 0} → (Error → Response) → Result A → Answer A
or_reply f (ok a) = go a
or_reply f (err e) = reply (f e)

unfoldable pub call : {A : Type 0} → (Error → Response) → M A → H A
call f m s = let (r, w) = m s.world in (or_reply f r, record s { world = w })

-- `x, err := m()`, for code that looks at the error itself, or drops it.
unfoldable pub look : {A : Type 0} → M A → H (Result A)
look m s = let (r, w) = m s.world in (go r, record s { world = w })

-- `err.Error()` with status 500, and with 400 and 502.
abbrev pub server_error : Error → Response
server_error e = failed 500 (error_text e)

abbrev pub bad_request : Error → Response
bad_request e = failed 400 (error_text e)

abbrev pub bad_gateway : Error → Response
bad_gateway e = failed 502 (error_text e)

-- A fixed text whatever the error is.
abbrev pub always : ℕ → Bytes → Error → Response
always status text e = failed status text

-- 404 for `sql.ErrNoRows`, else 500.
abbrev pub not_found : Bytes → Error → Response
not_found text no_rows = failed 404 text
not_found text (message m) = failed 500 m

-- `if err := c.ShouldBindJSON(&req); err != nil { … }`.
abbrev pub bind_json : {A : Type 0} → Result A → H A
bind_json (ok req) = give req
bind_json (err e) = send (bad_request e)

-- `id, err := strconv.ParseInt(c.Param(…), 10, 64)`: the result of the parser, and the answer's text.
abbrev pub path_id : Bytes → Option ℤ → H ℤ
path_id text none = send (failed 400 text)
path_id text (some id) = give id

-- `if b { c.JSON(…); return }`.
abbrev pub refuse_if : Bool → Response → H (Unit {0})
refuse_if b r = if b then send r else give tt
