-- ===== src/Repo/Packages/Flags.antt =====
-- The flags of the packages, and what writes that keep the default the only one.
use smmail.Prelude.{
  ◌≤◌, ◌+◌, ◌≡◌, refl, subst, Bool, true, false, Bytes, eqb, eqb_iff, List, [], ◌∷◌, ◌++◌, count,
  filter, update, any, count-append, count-update, count-filter-le, count-none, count-one,
  count-other, Bool-cases, inl, inr, arith,
}
use smmail.Models.{PackagePlan}
use smmail.Repo.Packages.{is_named}

abbrev pub is_default_plan : PackagePlan → Bool
is_default_plan p = p.is_default

-- A name stands for one package at most, and one package at most is the default.
pub record HasOneDefault (plans : List PackagePlan) : Type 0 where
  pub one_name : (name : Bytes) → count (is_named name) plans ≤ 1
  pub one_default : count (λ (p : PackagePlan). p.is_default) plans ≤ 1

-- All flags are cleared, then those of the name are set.
count-cleared :
    (plans : List PackagePlan)
    → count is_default_plan (update (λ p. true) (λ p. record p { is_default = false }) plans) ≡ 0
count-cleared [] = omega arith
count-cleared (x ∷ xs) = ground (arith, count-cleared xs)

count-set :
    (name : Bytes) (plans : List PackagePlan)
    → count is_default_plan (update (is_named name) (λ p. record p { is_default = true }) plans)
      ≤ count is_default_plan plans + count (is_named name) plans
count-set name [] = omega arith
count-set name (x ∷ xs) = ground (arith, count-set name xs)

abbrev pub clear_flags : List PackagePlan → List PackagePlan
clear_flags plans = update (λ p. true) (λ p. record p { is_default = false }) plans

abbrev pub set_flags : Bytes → List PackagePlan → List PackagePlan
set_flags name plans = update (is_named name) (λ p. record p { is_default = true }) plans

pub clear_flags-HasOneDefault :
    (plans : List PackagePlan) → HasOneDefault plans → HasOneDefault (clear_flags plans)
clear_flags-HasOneDefault plans h = record {
  one_name = λ name. omega (
    arith,
    h.one_name name,
    count-update (is_named name) (λ p. true) (λ p. record p { is_default = false }) plans
        (λ x. refl),
  );
  one_default = omega (arith, count-cleared plans);
}

pub set_flags-HasOneDefault :
    (name : Bytes) (plans : List PackagePlan)
    → HasOneDefault plans
    → HasOneDefault (set_flags name (clear_flags plans))
set_flags-HasOneDefault name plans h =
    let cleared = update (λ p. true) (λ (p : PackagePlan). record p { is_default = false }) plans in
    let same : (n : Bytes) → count (is_named n) cleared ≡ count (is_named n) plans = λ n.
      count-update (is_named n) (λ p. true) (λ p. record p { is_default = false }) plans
        (λ x. refl) in
    record {
      one_name = λ n. omega (
        arith,
        h.one_name n,
        same n,
        count-update (is_named n) (is_named name) (λ p. record p { is_default = true }) cleared
            (λ x. refl),
      );
      one_default =
          omega (arith, h.one_name name, same name, count-cleared plans, count-set name cleared);
    }

pub filter-HasOneDefault :
    (p : PackagePlan → Bool) (plans : List PackagePlan)
    → HasOneDefault plans
    → HasOneDefault (filter p plans)
filter-HasOneDefault p plans h = record {
  one_name = λ name. omega (arith, h.one_name name, count-filter-le (is_named name) p plans);
  one_default = omega (arith, h.one_default, count-filter-le is_default_plan p plans);
}

pub update-HasOneDefault :
    (p : PackagePlan → Bool) (f : PackagePlan → PackagePlan) (plans : List PackagePlan)
    → ((n : Bytes) (x : PackagePlan) → is_named n (f x) ≡ is_named n x)
    → ((x : PackagePlan) → (f x).is_default ≡ x.is_default)
    → HasOneDefault plans
    → HasOneDefault (update p f plans)
update-HasOneDefault p f plans same_name same_flag h = record {
  one_name = λ n. omega (arith, h.one_name n, count-update (is_named n) p f plans (same_name n));
  one_default = omega (arith, h.one_default, count-update is_default_plan p f plans same_flag);
}

-- A new package, where its flag leaves at most one default.
pub insert-HasOneDefault_room :
    (p : PackagePlan) (plans : List PackagePlan)
    → any (is_named p.name) plans ≡ false
    → count is_default_plan plans + count is_default_plan (p ∷ []) ≤ 1
    → HasOneDefault plans
    → HasOneDefault (plans ++ p ∷ [])
insert-HasOneDefault_room p plans fresh room h = record {
  one_name = λ name. elim (Bool-cases (eqb p.name name)) [
    | inl e ↦ omega (
      arith,
      count-append (is_named name) plans (p ∷ []),
      count-none (is_named name) plans
          (subst (λ (n : Bytes). any (is_named n) plans ≡ false) ((eqb_iff p.name name).0 e) fresh),
      count-one (is_named name) p,
    )
    | inr e ↦ omega (
      arith,
      h.one_name name,
      count-append (is_named name) plans (p ∷ []),
      count-other (is_named name) p e,
    )
  ];
  one_default = omega (arith, room, count-append is_default_plan plans (p ∷ []));
}

pub insert-HasOneDefault :
    (p : PackagePlan) (plans : List PackagePlan)
    → any (is_named p.name) plans ≡ false
    → p.is_default ≡ false
    → HasOneDefault plans
    → HasOneDefault (plans ++ p ∷ [])
insert-HasOneDefault p plans fresh off h =
    insert-HasOneDefault_room p plans fresh
      (omega (arith, h.one_default, count-other is_default_plan p off)) h
