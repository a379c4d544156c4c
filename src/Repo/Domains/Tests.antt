-- ===== src/Repo/Domains/Tests.antt =====
-- A rule that replaces one, and the rule of another domain.
use smmail.Prelude.{◌≡◌, refl, codes, pos, find, List, [], ◌∷◌, none, some}
use smmail.Models.{DomainThrottle}
use smmail.Runtime.{World, ok}
use smmail.Repo.Domains.{upsert, get, is_rule}
use smmail.Repo.Domains.Stored.{get-upsert, find-upsert_other}
use smmail.Repo.Domains.Refined.{Call, store, ask, run, answers_of, contents, run_refines}
use smmail.Fixture.{calm, start}

abbrev with_rule : World
with_rule = (upsert calm (pos 1) (codes "b.org") (pos 5) (pos 0) start).1

get-upsert_example :
    (rule : DomainThrottle) × ((get calm
        (pos 1)
        (codes "b.org")
        (upsert calm (pos 1) (codes "b.org") (pos 7) (pos 9) with_rule).1).0
      ≡ ok rule)
    × (rule.limit_per_hour ≡ pos 7)
    × (rule.throttle_ms ≡ pos 9)
get-upsert_example = get-upsert calm (pos 1) (codes "b.org") (pos 7) (pos 9) with_rule refl refl

find-upsert_other_example :
    find
      (is_rule (pos 1) (codes "b.org"))
      (upsert calm (pos 1) (codes "c.org") (pos 7) (pos 9) with_rule).1.db.domain_throttles.rows
    ≡ find (is_rule (pos 1) (codes "b.org")) with_rule.db.domain_throttles.rows
find-upsert_other_example =
    find-upsert_other calm (pos 1) (codes "c.org") (pos 7) (pos 9) (pos 1) (codes "b.org") with_rule
      refl refl

abbrev calls : List Call
calls =
    ask (pos 1) (codes "b.org")
    ∷ store (pos 1) (codes "b.org") (pos 7) (pos 9)
    ∷ ask (pos 1) (codes "b.org")
    ∷ []

run_refines_example : run calm calls start ≡ answers_of calls (contents start)
run_refines_example = run_refines calm (λ t. refl) calls start

answers : answers_of calls (contents start) ≡ none ∷ some (pos 7, pos 9) ∷ []
unfolding answers_of
answers = refl
