-- ===== src/Repo/Domains/Refined.antt =====
-- The rules of the table as a map from users and domains.
use smmail.Prelude.{
  ℕ, ◌≡◌, refl, ap, ◌∙◌, ◌&&◌, Bytes, eqb, eqb_iff, ℤ, eqb_ℤ, eqb_ℤ_iff, List, [], ◌∷◌, Option,
  none, some, find, if◌then◌else◌, Bool-cases, Option-cases, inl, inr, arith,
}
use mathlib.Core.Option
use mathlib.Core.Path.{fun_ext}
use smmail.Models.{DomainThrottle}
use smmail.Models.Database.{Database}
use smmail.Runtime.{Env, World, Result, ok, err}
use smmail.Runtime.Effects.{query_row_ok, query_row-none, query_row-tick}
use smmail.Repo.Domains.{is_rule, upsert, get}
use smmail.Repo.Domains.Stored.{rules, stored, find-stored, find-upsert_other}

-- The limit and the throttle of a user and a domain.
abbrev pub Rules : Type 0
Rules = ℤ → Bytes → Option (ℤ × ℤ)

abbrev pub set_rule : ℤ → Bytes → ℤ × ℤ → Rules → Rules
set_rule user_id domain rule m other_id other =
    if eqb_ℤ user_id other_id && eqb domain other then some rule else m other_id other

pub data Call : Type 0 where
  store : ℤ → Bytes → ℤ → ℤ → Call
  ask : ℤ → Bytes → Call

-- What the calls of `Get` answer: no rule, or the two numbers of the one that is there.
unfoldable pub answers_of : List Call → Rules → List (Option (ℤ × ℤ))
answers_of [] m = []
answers_of (store user_id domain limit ms ∷ rest) m =
    answers_of rest (set_rule user_id domain (limit, ms) m)
answers_of (ask user_id domain ∷ rest) m = m user_id domain ∷ answers_of rest m

abbrev pub numbers : DomainThrottle → ℤ × ℤ
numbers d = (d.limit_per_hour, d.throttle_ms)

-- `sql.ErrNoRows` is the answer that there is none.
abbrev pub answered : Result DomainThrottle → Option (ℤ × ℤ)
answered (ok d) = some (numbers d)
answered (err e) = none

abbrev of_rows : List DomainThrottle → Rules
of_rows rows user_id domain = Option.map numbers (find (is_rule user_id domain) rows)

abbrev pub contents : World → Rules
contents w = of_rows (rules w)

module _ (env : Env) where
  pub run : List Call → World → List (Option (ℤ × ℤ))
  run [] w = []
  run (store user_id domain limit ms ∷ rest) w = run rest (upsert env user_id domain limit ms w).1
  run (ask user_id domain ∷ rest) w =
      let (r, w') = get env user_id domain w in answered r ∷ run rest w'

  module _ (works : (t : ℕ) → env.fault t ≡ none) where
    contents-upsert :
        (user_id : ℤ) (domain : Bytes) (limit ms : ℤ) (w : World) (other_id : ℤ) (other : Bytes)
        → contents (stored env user_id domain limit ms w) other_id other
          ≡ set_rule user_id domain (limit, ms) (contents w) other_id other
    contents-upsert user_id domain limit ms w other_id other =
        elim (Bool-cases (eqb_ℤ user_id other_id && eqb domain other)) [
          | inl same ↦ rw same (
              let key = (eqb_ℤ_iff user_id other_id).0 (ground (arith, same)) in
              let name = (eqb_iff domain other).0 (ground (arith, same)) in
              let (rule, found, h, k) = find-stored env user_id domain limit ms w (works w.ticks) in
              rw (← key, ← name, found, h, k) refl)
          | inr apart ↦ rw apart (
              ap (Option.map numbers) (
                find-upsert_other env user_id domain limit ms other_id other w (works w.ticks)
                  apart))
        ]

    get-contents :
        (user_id : ℤ) (domain : Bytes) (w : World)
        → (answered (get env user_id domain w).0 ≡ contents w user_id domain)
          × (rules (get env user_id domain w).1 ≡ rules w)
    unfolding get
    get-contents user_id domain w =
        let f =
          λ (now : ℕ) (db : Database). find (is_rule user_id domain) db.domain_throttles.rows in
        (
          elim (Option-cases (find (is_rule user_id domain) (rules w))) [
            | inl e ↦ rw e (
                ap (λ (r : Result DomainThrottle × World). answered r.0)
                  (query_row-none env f w (works w.ticks) e))
            | inr (d, e) ↦ rw e (
                ap (λ (r : Result DomainThrottle × World). answered r.0)
                  (query_row_ok env f w d (works w.ticks) e))
          ],
          ap rules (query_row-tick env f w),
        )

    -- Where no statement fails, no sequence of calls of Upsert and Get tells the table from a map of
    -- users and domains to a limit and a throttle: each Get answers what the last Upsert for its user
    -- and domain has stored, or else what the table had.
    pub run_refines : (calls : List Call) (w : World) → run calls w ≡ answers_of calls (contents w)
    unfolding run answers_of
    run_refines [] w = refl
    run_refines (store user_id domain limit ms ∷ rest) w =
        run_refines rest (stored env user_id domain limit ms w)
        ∙ ap (answers_of rest)
            (fun_ext (λ id. fun_ext (λ name. contents-upsert user_id domain limit ms w id name)))
    run_refines (ask user_id domain ∷ rest) w =
        let (answer, same) = get-contents user_id domain w in
        ap (λ (a : Option (ℤ × ℤ)). a ∷ run rest (get env user_id domain w).1) answer
        ∙ ap (λ (later : List (Option (ℤ × ℤ))). contents w user_id domain ∷ later)
            (run_refines rest (get env user_id domain w).1
              ∙ ap (λ (rows : List DomainThrottle). answers_of rest (of_rows rows)) same)
