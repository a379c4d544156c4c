-- ===== src/Repo/Tests.antt =====
-- The statements on the small database.
use smmail.Prelude.{ℕ, ◌≡◌, refl, true, false, Bytes, codes, pos, List, [], ◌∷◌, map, length}
use smmail.Models.{
  User, QueueItem, UpstreamSmtp, PackagePlan, DomainThrottle, MailEvent, EventStatus,
}
use smmail.Runtime.{ok, err, message, pure, ◌>>=◌, ◌>>◌, query, query_row, exec, statement}
use smmail.Repo.Users
use smmail.Repo.Domains
use smmail.Repo.Events
use smmail.Repo.Queue
use smmail.Repo.Smtps
use smmail.Repo.Packages
use smmail.Fixture.{calm, start, alice, smtp_account, queued_item}

abbrev pair : {A B : Type 0} → A → B → A × B
pair a b = (a, b)

abbrev plan : Bytes → PackagePlan
plan name = record {
  id = pos 0;
  name = name;
  monthly_limit = pos 100;
  limit_per_sec = pos 1;
  limit_per_min = pos 2;
  limit_per_hour = pos 3;
  limit_per_day = pos 4;
  throttle_ms = pos 5;
  is_default = true;
  created_at = 0;
}

abbrev bob : User
bob = record alice { username = codes "bob" }

users_test :
    ((do
      id ← Users.create calm bob
      Users.update calm id (record bob { display_name = codes "Bob" })
      Users.set_password calm id (codes "other")
      Users.apply_package calm id (plan (codes "gold"))
      Users.disable calm id
      Users.delete_hard calm (pos 1)
      users ← Users.list calm
      found ← Users.get_by_username calm (codes "bob")
      pure (pair (map (λ (u : User). u.id) users) found.plan_name))
      start).0
    ≡ ok (pos 2 ∷ [], codes "gold")
unfolding Users.create Users.update Users.set_password Users.apply_package Users.disable
    Users.delete_hard Users.list Users.get_by_username exec query query_row ◌>>=◌
users_test = refl

name_taken :
    (Users.create calm alice start).0
    ≡ err (message (codes "UNIQUE constraint failed: users.username"))
unfolding Users.create statement
name_taken = refl

rules_test :
    ((do
      Domains.upsert calm (pos 1) (codes "b.org") (pos 5) (pos 0)
      Domains.upsert calm (pos 1) (codes "a.org") (pos 6) (pos 0)
      Domains.upsert calm (pos 1) (codes "b.org") (pos 7) (pos 1)
      rules ← Domains.list_by_user calm (pos 1)
      pure (map (λ (d : DomainThrottle). d.limit_per_hour) rules))
      start).0
    ≡ ok (pos 6 ∷ pos 7 ∷ [])
unfolding Domains.upsert Domains.list_by_user exec query ◌>>=◌
rules_test = refl

abbrev event : ℕ → MailEvent
event user_id = record {
  id = pos 0;
  user_id = pos user_id;
  mail_from = [];
  rcpt_to = [];
  domain = codes "b.org";
  status = EventStatus.sent;
  reason = [];
  created_at = 0;
}

events_test :
    ((do
      Events.create calm (event 1)
      Events.create calm (event 2)
      Events.create calm (event 1)
      Events.delete_date_range calm (pos 2) (codes "x") (codes "y")
      Events.delete_since_days calm (pos 2) (pos 1)
      n ← Events.count_all calm (pos 0)
      es ← Events.list calm (pos 0) (pos 1) (pos 1)
      Events.delete_all calm (pos 0)
      m ← Events.count_all calm (pos 1)
      pure (pair n (pair (map (λ (e : MailEvent). e.id) es) m)))
      start).0
    ≡ ok (2, (pos 1 ∷ [], 0))
unfolding Events.create Events.delete_date_range Events.delete_since_days Events.count_all
    Events.list Events.delete_all exec query ◌>>=◌
events_test = refl

queue_test :
    ((do
      Queue.enqueue calm (queued_item 9)
      n ← Queue.count_pending calm (pos 1)
      Queue.mark_sent calm (pos 1)
      Queue.delete_pending_date_range calm (pos 1) (codes "x") (codes "y")
      items ← Queue.list_pending calm (pos 2) (pos 1) (pos 1)
      Queue.delete_pending_since_days calm (pos 1) (pos 1)
      m ← Queue.count_pending calm (pos 0)
      Queue.delete_pending_all calm (pos 0)
      k ← Queue.count_pending calm (pos 0)
      pure (pair n (pair (map (λ (q : QueueItem). q.id) items) (pair m k))))
      start).0
    ≡ ok (4, (pos 3 ∷ pos 2 ∷ [], (2, 0)))
unfolding Queue.enqueue Queue.count_pending Queue.mark_sent Queue.delete_pending_date_range
    Queue.list_pending Queue.delete_pending_since_days Queue.delete_pending_all exec query ◌>>=◌
queue_test = refl

abbrev ids : List UpstreamSmtp → List Bytes
ids = map (λ (s : UpstreamSmtp). s.name)

smtps_test :
    ((do
      id ← Smtps.create calm (smtp_account 0 (codes "third"))
      Smtps.assign_to_user calm (pos 1) id (pos 0) true
      Smtps.unassign_from_user calm (pos 1) (pos 1)
      Smtps.assign_to_user calm (pos 1) (pos 2) (pos 1) false
      used ← Smtps.list_assigned calm (pos 1)
      Smtps.delete_smtp calm (pos 2)
      free ← Smtps.list_available_for_user calm (pos 1)
      owned ← Smtps.list calm (pos 0)
      one ← Smtps.get_by_id calm (pos 1)
      pure (pair (ids used) (pair (ids free) (pair (ids owned) one.host))))
      start).0
    ≡ ok (
      codes "third" ∷ [],
      (codes "down" ∷ codes "third" ∷ [], (codes "third" ∷ codes "down" ∷ [], codes "down")),
    )
unfolding Smtps.create Smtps.assign_to_user Smtps.unassign_from_user Smtps.list_assigned
    Smtps.delete_smtp Smtps.list_available_for_user Smtps.list Smtps.get_by_id statement exec query
    query_row ◌>>=◌
smtps_test = refl

packages_test :
    ((do
      Packages.create_or_update calm (plan (codes "a"))
      Packages.create_or_update calm (plan (codes "b"))
      Packages.set_default calm (codes "a")
      Packages.set_default calm (codes "b")
      Packages.delete calm (codes "a")
      p ← Packages.get_default calm
      ps ← Packages.list calm
      pure (pair p.name (length ps)))
      start).0
    ≡ ok (codes "b", 1)
unfolding Packages.create_or_update Packages.set_default Packages.delete Packages.get_by_name
    Packages.get_default Packages.list exec query query_row ◌>>=◌
packages_test = refl
