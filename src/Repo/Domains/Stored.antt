-- ===== src/Repo/Domains/Stored.antt =====
-- A rule that is stored is the one that is found.
use smmail.Prelude.{
  ℕ, suc, pos, ◌≡◌, refl, ◌∙◌, ap, Bool, true, false, ◌&&◌, Bytes, eqb, eqb_refl, eqb_iff, ℤ, eqb_ℤ,
  eqb_ℤ_refl, eqb_ℤ_iff, List, [], ◌∷◌, ◌++◌, none, some, find, any, update, Bool-cases, inl, inr,
  arith,
}
use smmail.Models.{DomainThrottle}
use smmail.Runtime.{Env, World, Result, ok, timestamp}
use smmail.Runtime.Effects.{exec_ok, query_row_ok}
use smmail.Repo.Domains.{is_rule, upsert, get}

module _ {ℓ} {A : Type ℓ} (p q : A → Bool) (f : A → A) where
  find-update :
      (xs : List A)
      → ((x : A) → p (f x) ≡ p x)
      → any p xs ≡ true
      → (x : A) × (find p (update p f xs) ≡ some (f x))
  find-update [] same h = absurd cc
  find-update (x ∷ xs) same h = elim (Bool-cases (p x)) [
    | inl e ↦ (x, rw (e, same x, e) refl)
    | inr e ↦ rw (e, e) (find-update xs same (rw e at h))
  ]

  find-append :
      (xs : List A) (y : A) → any p xs ≡ false → p y ≡ true → find p (xs ++ y ∷ []) ≡ some y
  find-append [] y h e = rw e refl
  find-append (x ∷ xs) y h e = ground (arith, find-append xs y)

  find-append_other : (xs : List A) (y : A) → q y ≡ false → find q (xs ++ y ∷ []) ≡ find q xs
  find-append_other [] y e = rw e refl
  find-append_other (x ∷ xs) y e = elim (Bool-cases (q x)) [
    | inl t ↦ rw t refl
    | inr t ↦ rw t (find-append_other xs y e)
  ]

  find-update_other :
      (xs : List A)
      → ((x : A) → q (f x) ≡ q x)
      → ((x : A) → p x ≡ true → q x ≡ false)
      → find q (update p f xs) ≡ find q xs
  find-update_other [] same apart = refl
  find-update_other (x ∷ xs) same apart = elim (Bool-cases (p x)) [
    | inl e ↦ rw (e, same x, apart x e) (find-update_other xs same apart)
    | inr e ↦ elim (Bool-cases (q x)) [
      | inl t ↦ rw (e, t) refl
      | inr t ↦ rw (e, t) (find-update_other xs same apart)
    ]
  ]

abbrev pub rules : World → List DomainThrottle
rules w = w.db.domain_throttles.rows

is_rule_refl :
    (user_id : ℤ) (domain : Bytes) (d : DomainThrottle)
    → d.user_id ≡ user_id
    → d.domain ≡ domain
    → is_rule user_id domain d ≡ true
is_rule_refl user_id domain d e f = rw (e, f, eqb_ℤ_refl user_id, eqb_refl domain) refl

and_true : (a b : Bool) → a && b ≡ true → (a ≡ true) × (b ≡ true)
and_true true b h = (refl, h)
and_true false b h = absurd cc

-- A rule for one key is none for another.
is_rule_other :
    (user_id other_id : ℤ) (domain other : Bytes) (d : DomainThrottle)
    → eqb_ℤ user_id other_id && eqb domain other ≡ false
    → is_rule user_id domain d ≡ true
    → is_rule other_id other d ≡ false
is_rule_other user_id other_id domain other d apart h =
    let (e, f) = and_true (eqb_ℤ d.user_id user_id) (eqb d.domain domain) h in
    let same_user = (eqb_ℤ_iff d.user_id user_id).0 e in
    let same_domain = (eqb_iff d.domain domain).0 f in
    ap (λ (k : ℤ). eqb_ℤ k other_id && eqb d.domain other) same_user
    ∙ ap (λ (k : Bytes). eqb_ℤ user_id other_id && eqb k other) same_domain
    ∙ apart

set_rule : ℤ → ℤ → ℕ → DomainThrottle → DomainThrottle
set_rule limit_per_hour throttle_ms now d = record d {
  limit_per_hour = limit_per_hour;
  throttle_ms = throttle_ms;
  updated_at = now;
}

new_rule : ℤ → Bytes → ℤ → ℤ → ℕ → ℤ → DomainThrottle
new_rule user_id domain limit_per_hour throttle_ms now id = record {
  id = id;
  user_id = user_id;
  domain = domain;
  limit_per_hour = limit_per_hour;
  throttle_ms = throttle_ms;
  created_at = now;
  updated_at = now;
}

module _ (env : Env) (user_id : ℤ) (domain : Bytes) (limit_per_hour throttle_ms : ℤ) where
  abbrev pub stored : World → World
  stored w = (upsert env user_id domain limit_per_hour throttle_ms w).1

  old_rule :
      (w : World)
      → env.fault w.ticks ≡ none
      → any (is_rule user_id domain) (rules w) ≡ true
      → rules (stored w)
        ≡ update
            (is_rule user_id domain)
            (set_rule limit_per_hour throttle_ms (timestamp env w.ticks))
            (rules w)
  unfolding upsert set_rule
  old_rule w calm e =
      ap (λ (r : Result (Unit {0}) × World). rules r.1) (exec_ok env _ w calm) ∙ rw e refl

  fresh_rule :
      (w : World)
      → env.fault w.ticks ≡ none
      → any (is_rule user_id domain) (rules w) ≡ false
      → rules (stored w)
        ≡ rules w
          ++ new_rule user_id domain limit_per_hour throttle_ms
              (timestamp env w.ticks)
              (pos (suc w.db.domain_throttles.last_id))
            ∷ []
  unfolding upsert new_rule
  fresh_rule w calm e =
      ap (λ (r : Result (Unit {0}) × World). rules r.1) (exec_ok env _ w calm) ∙ rw e refl

  stored_ticks : (w : World) → env.fault w.ticks ≡ none → (stored w).ticks ≡ suc w.ticks
  unfolding upsert
  stored_ticks w calm = ap (λ (r : Result (Unit {0}) × World). r.1.ticks) (exec_ok env _ w calm)

  pub find-stored :
      (w : World)
      → env.fault w.ticks ≡ none
      → (rule : DomainThrottle) × (find (is_rule user_id domain) (rules (stored w)) ≡ some rule)
        × (rule.limit_per_hour ≡ limit_per_hour)
        × (rule.throttle_ms ≡ throttle_ms)
  unfolding set_rule new_rule
  find-stored w calm = elim (Bool-cases (any (is_rule user_id domain) (rules w))) [
    | inl e ↦
        let p = is_rule user_id domain in
        let f = set_rule limit_per_hour throttle_ms (timestamp env w.ticks) in
        let (x, found) = find-update p p f (rules w) (λ d. refl) e in
        (f x, ap (find p) (old_rule w calm e) ∙ found, refl, refl)
    | inr e ↦
        let p = is_rule user_id domain in
        let rule =
          new_rule user_id domain limit_per_hour throttle_ms (timestamp env w.ticks)
            (pos (suc w.db.domain_throttles.last_id)) in
        (
          rule,
          ap (find p) (fresh_rule w calm e)
              ∙ find-append p p (λ d. d) (rules w) rule e
                  (is_rule_refl user_id domain rule refl refl),
          refl,
          refl,
        )
  ]

  -- Where the two statements do not fail, `Get` finds the rule that `Upsert` has stored, whether or
  -- not there was one, with its limit and its throttle.
  pub get-upsert :
      (w : World)
      → env.fault w.ticks ≡ none
      → env.fault (suc w.ticks) ≡ none
      → (rule : DomainThrottle) × ((get env user_id domain
            (upsert env user_id domain limit_per_hour throttle_ms w).1).0
          ≡ ok rule)
        × (rule.limit_per_hour ≡ limit_per_hour)
        × (rule.throttle_ms ≡ throttle_ms)
  unfolding get
  get-upsert w calm calm_next =
      let (rule, found, limit, throttle) = find-stored w calm in
      (
        rule,
        ap (λ (r : Result DomainThrottle × World). r.0)
            (query_row_ok env (λ now db. find (is_rule user_id domain) db.domain_throttles.rows)
              (stored w) rule (ap env.fault (stored_ticks w calm) ∙ calm_next) found),
        limit,
        throttle,
      )

  -- Where the statement does not fail, `Upsert` leaves what the table has for another user or domain.
  pub find-upsert_other :
      (other_id : ℤ) (other : Bytes) (w : World)
      → env.fault w.ticks ≡ none
      → eqb_ℤ user_id other_id && eqb domain other ≡ false
      → find
          (is_rule other_id other)
          (upsert env user_id domain limit_per_hour throttle_ms w).1.db.domain_throttles.rows
        ≡ find (is_rule other_id other) w.db.domain_throttles.rows
  unfolding set_rule new_rule
  find-upsert_other other_id other w calm apart =
      let p = is_rule user_id domain in
      let q = is_rule other_id other in
      let f = set_rule limit_per_hour throttle_ms (timestamp env w.ticks) in
      let rule =
        new_rule user_id domain limit_per_hour throttle_ms (timestamp env w.ticks)
          (pos (suc w.db.domain_throttles.last_id)) in
      elim (Bool-cases (any p (rules w))) [
        | inl e ↦
            ap (find q) (old_rule w calm e)
            ∙ find-update_other p q f (rules w) (λ d. refl)
                (λ d. is_rule_other user_id other_id domain other d apart)
        | inr e ↦
            ap (find q) (fresh_rule w calm e)
            ∙ find-append_other p q f (rules w) rule (
                is_rule_other user_id other_id domain other rule apart
                  (is_rule_refl user_id domain rule refl refl))
      ]
