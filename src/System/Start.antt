-- ===== src/System/Start.antt =====
-- cmd/smtpd/main.go: what the program starts from. The variables are those of the process after
-- godotenv has read its file. The text of the log line shows how `mask` is used; the servers are
-- started by calls of libraries, and a signal stops them.
pub mod Sound
pub mod Tests
use smmail.Prelude.{Bytes, codes, is_empty, length, take, leb, [], ◌++◌, if◌then◌else◌}
use smmail.Config.{Config, load}
use smmail.Runtime.{Env, message, error_text, Result, ok, err}
use smmail.Db.Migration.{Sqlite, File, open_and_migrate}
use smmail.HttpApi.Reply.{Site}

pub mask : Bytes → Bytes
mask v =
    if is_empty v then [] else if leb (length v) 3 then codes "***" else take 2 v ++ codes "***"

-- The first line of the log.
pub relay_line : Config → Bytes
unfolding mask
relay_line cfg =
    if is_empty cfg.upstream_smtp_host
    then codes "upstream relay: disabled (local dev mode)"
    else codes "upstream relay: "
      ++ cfg.upstream_smtp_host
      ++ codes ":"
      ++ cfg.upstream_smtp_port
      ++ codes " user="
      ++ mask cfg.upstream_smtp_user

-- `httpapi.NewHandler` has no sessions, and `service.NewDeliveryService` an empty `rrIndex`.
abbrev pub started : File → Result (Unit {0}) → Result Site
started file (ok done) =
    ok (record { world = record file.world { rr_index = [] }; sessions = []; admin_sess = [] })
started file (err e) = err (message (codes "db init failed: " ++ error_text e))

-- What `main` does before it starts the goroutines; an error is fatal.
pub start : Env → Sqlite → (Bytes → Bytes) → File → Result Site × File
start env sqlite variables file =
    let (r, file') = open_and_migrate env sqlite (load variables).sqlite_path file in
    (started file' r, file')
