-- ===== src/Repo/Analytics/Agreed.antt =====
-- The report on all users and the report on one user agree.
use smmail.Prelude.{
  ◌-◌, ℕ, zero, suc, ◌≤◌, ◌≡◌, refl, sym, subst, ◌∙◌, Bool, false, ℤ, pos, eqb_ℤ, leb_ℤ, List, [],
  ◌∷◌, Option, none, some, All, All-map, find, map, insert_by, sort_by, get_elem?, Bool-cases, inl,
  inr, arith,
}
use smmail.Models.{User, UserUsage}
use smmail.Runtime.{Env, World, ok, timestamp}
use smmail.Runtime.Effects.{query-eq_ok, query_row-eq_ok}
use smmail.Repo.Events.{seconds_per_day}
use smmail.Repo.Analytics.{usage_row, before, limited_to, list_user_usage, user_usage}

-- A place of a list.
abbrev pub Stands {ℓ} : {A : Type ℓ} → A → List A → Type ℓ
Stands x xs = (i : ℕ) × (get_elem? xs i ≡ some x)

-- The numbers of the mails sent in the month fall.
abbrev pub IsFalling : List UserUsage → Type 0
IsFalling [] = Unit
IsFalling (u ∷ us) = All (λ (v : UserUsage). v.month_sent ≤ u.month_sent) us × IsFalling us

module _ {ℓ} {A : Type ℓ} where
  find-Stands : (p : A → Bool) (xs : List A) (x : A) → find p xs ≡ some x → Stands x xs
  find-Stands p [] x h = ground (arith, h)
  find-Stands p (y ∷ xs) x h = elim (Bool-cases (p y)) [
    | inl e ↦ (0, ground (arith, e, h))
    | inr e ↦ let (i, k) = find-Stands p xs x (ground (arith, e, h)) in (suc i, k)
  ]

  insert_by-Stands_new : (le : A → A → Bool) (x : A) (xs : List A) → Stands x (insert_by le x xs)
  insert_by-Stands_new le x [] = (0, refl)
  insert_by-Stands_new le x (y ∷ ys) = elim (Bool-cases (le x y)) [
    | inl e ↦ rw e (0, refl)
    | inr e ↦ rw e (let (i, k) = insert_by-Stands_new le x ys in (suc i, k))
  ]

  insert_by-Stands_old :
      (le : A → A → Bool) (x z : A) (xs : List A) (i : ℕ)
      → get_elem? xs i ≡ some z
      → Stands z (insert_by le x xs)
  insert_by-Stands_old le x z [] i h = ground (arith, h)
  insert_by-Stands_old le x z (y ∷ ys) zero h = elim (Bool-cases (le x y)) [
    | inl e ↦ rw e (1, h)
    | inr e ↦ rw e (0, h)
  ]
  insert_by-Stands_old le x z (y ∷ ys) (suc i) h = elim (Bool-cases (le x y)) [
    | inl e ↦ rw e (suc (suc i), h)
    | inr e ↦ rw e (let (j, k) = insert_by-Stands_old le x z ys i h in (suc j, k))
  ]

  sort_by-Stands :
      (le : A → A → Bool) (z : A) (xs : List A) (i : ℕ)
      → get_elem? xs i ≡ some z
      → Stands z (sort_by le xs)
  sort_by-Stands le z [] i h = ground (arith, h)
  sort_by-Stands le z (y ∷ ys) zero h =
      subst (λ x. Stands x (insert_by le y (sort_by le ys))) (ground (arith, h))
        (insert_by-Stands_new le y (sort_by le ys))
  sort_by-Stands le z (y ∷ ys) (suc i) h =
      let (j, k) = sort_by-Stands le z ys i h in insert_by-Stands_old le y z (sort_by le ys) j k

module _ {ℓ κ} {A : Type ℓ} {B : Type κ} where
  map-Stands :
      (f : A → B) (x : A) (xs : List A) (i : ℕ)
      → get_elem? xs i ≡ some x
      → get_elem? (map f xs) i ≡ some (f x)
  map-Stands f x [] i h = ground (arith, h)
  map-Stands f x (y ∷ xs) zero h = ground (arith, h)
  map-Stands f x (y ∷ xs) (suc i) h = map-Stands f x xs i h

insert_by-All :
    (P : UserUsage → Type 0) (x : UserUsage) (xs : List UserUsage)
    → P x
    → All P xs
    → All P (insert_by before x xs)
insert_by-All P x [] h k = (h, tt)
insert_by-All P x (y ∷ ys) h (ky, k) = elim (Bool-cases (before x y)) [
  | inl e ↦ rw e (h, (ky, k))
  | inr e ↦ rw e (ky, insert_by-All P x ys h k)
]

insert_by-IsFalling :
    (x : UserUsage) (xs : List UserUsage) → IsFalling xs → IsFalling (insert_by before x xs)
insert_by-IsFalling x [] h = (tt, tt)
insert_by-IsFalling x (y ∷ ys) (hy, h) = elim (Bool-cases (before x y)) [
  | inl e ↦
      let first : y.month_sent ≤ x.month_sent = ground (arith, e) in
      rw e ((first, All-map ys (λ v k. omega (arith, k, first)) hy), (hy, h))
  | inr e ↦ rw e (
    insert_by-All (λ v. v.month_sent ≤ y.month_sent) x ys (ground (arith, e)) hy,
    insert_by-IsFalling x ys h,
  )
]

sort_by-IsFalling : (xs : List UserUsage) → IsFalling (sort_by before xs)
sort_by-IsFalling [] = tt
sort_by-IsFalling (x ∷ xs) = insert_by-IsFalling x (sort_by before xs) (sort_by-IsFalling xs)

unlimited {ℓ} :
    {A : Type ℓ} (limit : ℤ) (xs : List A) → leb_ℤ (pos 0) limit ≡ false → limited_to limit xs ≡ xs
unlimited limit xs h = rw h refl

module _ (env : Env) where
  usage-Stands :
      (rows : List User) (f : User → UserUsage) (id : ℤ) (r : UserUsage) (o : Option User)
      → find (λ u. eqb_ℤ u.id id) rows ≡ o
      → elim o [ none ↦ none | some u ↦ some (f u) ] ≡ some r
      → Stands r (sort_by before (map f rows))
  usage-Stands rows f id r none e h = ground (arith, h)
  usage-Stands rows f id r (some u) e h =
      let (i, k) = find-Stands (λ (v : User). eqb_ℤ v.id id) rows u e in
      sort_by-Stands before r (map f rows) i (map-Stands f u rows i k ∙ h)

  -- Where they are asked in one world and neither fails, ListUserUsage without a limit lists the users
  -- by falling numbers of the mails sent in the month, and what UserUsage reports on a user stands in
  -- the list.
  pub list_user_usage-Stands :
      (limit id : ℤ) (w : World) (rs : List UserUsage) (r : UserUsage)
      → leb_ℤ (pos 0) limit ≡ false
      → (list_user_usage env limit w).0 ≡ ok rs
      → (user_usage env id w).0 ≡ ok r
      → Stands r rs × IsFalling rs
  unfolding list_user_usage user_usage
  list_user_usage-Stands limit id w rs r h all one =
      let f =
        usage_row (env.month_start (timestamp env w.ticks))
          (timestamp env w.ticks - seconds_per_day) w.db.mail_events.rows in
      let rows = w.db.users.rows in
      let same : rs ≡ sort_by before (map f rows) =
        query-eq_ok env _ w rs all ∙ unlimited limit (sort_by before (map f rows)) h in
      (
        subst (λ x. Stands r x) (sym same)
            (usage-Stands rows f id r (find (λ u. eqb_ℤ u.id id) rows) refl
              (query_row-eq_ok env _ w r one)),
        subst (λ x. IsFalling x) (sym same) (sort_by-IsFalling (map f rows)),
      )
