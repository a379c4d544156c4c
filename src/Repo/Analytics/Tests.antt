-- ===== src/Repo/Analytics/Tests.antt =====
-- The reports on two users.
use smmail.Prelude.{◌≡◌, refl, codes, pos, negsuc, List, [], ◌∷◌}
use smmail.Models.{User, UserUsage, MailEvent, EventStatus}
use smmail.Runtime.{World, ok, query, query_row}
use smmail.Fixture.{calm, start, database, alice}
use smmail.Service.Send.{new_event}
use smmail.Repo.Analytics.{list_user_usage, user_usage, usage_row}
use smmail.Repo.Analytics.Agreed.{Stands, IsFalling, list_user_usage-Stands}

abbrev bob : User
bob = record alice { id = pos 2; username = codes "bob" }

abbrev sent : MailEvent
sent = record (new_event (pos 2) [] [] [] EventStatus.sent []) { created_at = 1700000000 }

abbrev world : World
world = record start {
  db = record database {
    users = record { rows = alice ∷ bob ∷ []; last_id = 2 };
    mail_events = record { rows = sent ∷ []; last_id = 1 };
  };
}

abbrev report : List UserUsage
report =
    usage_row 1699488000 1699913600 (sent ∷ []) bob
    ∷ usage_row 1699488000 1699913600 (sent ∷ []) alice
    ∷ []

listed : (list_user_usage calm (negsuc 0) world).0 ≡ ok report
unfolding list_user_usage query
listed = refl

reported : (user_usage calm (pos 2) world).0 ≡ ok (usage_row 1699488000 1699913600 (sent ∷ []) bob)
unfolding user_usage query_row
reported = refl

list_user_usage-Stands_example :
    Stands (usage_row 1699488000 1699913600 (sent ∷ []) bob) report × IsFalling report
list_user_usage-Stands_example =
    list_user_usage-Stands calm (negsuc 0) (pos 2) world report
      (usage_row 1699488000 1699913600 (sent ∷ []) bob) refl listed reported
