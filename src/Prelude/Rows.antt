-- ===== src/Prelude/Rows.antt =====
-- What the rows of a table keep when it is changed.
use Prim.Native.Nat.{◌≤◌}
use mathlib.Core.Path.{◌≡◌, refl, subst}
use mathlib.Core.Logic.{inl, inr}
use mathlib.Core.Bool.{Bool, true, false, not}
use mathlib.Core.List.{List, [], ◌∷◌, ◌++◌}
use mathlib.Core.Option.{Option, some}
use native.Mathlib.Omega.{arith}
use smmail.Prelude.Tests.{if◌then◌else◌, Bool-cases}
use smmail.Prelude.Lists.{filter, find, update, any, count, All}

module _ {ℓ} {A : Type ℓ} (q : A → Bool) where
  pub count-update :
      (p : A → Bool) (f : A → A) (xs : List A)
      → ((x : A) → q (f x) ≡ q x)
      → count q (update p f xs) ≡ count q xs
  count-update p f [] h = omega arith
  count-update p f (x ∷ xs) h = ground (arith, count-update p f xs h, h x)

  pub count-filter-le : (p : A → Bool) (xs : List A) → count q (filter p xs) ≤ count q xs
  count-filter-le p [] = omega arith
  count-filter-le p (x ∷ xs) = ground (arith, count-filter-le p xs)

  pub count-none : (xs : List A) → any q xs ≡ false → count q xs ≡ 0
  count-none [] h = omega arith
  count-none (x ∷ xs) h = ground (arith, count-none xs)

  pub count-one : (x : A) → count q (x ∷ []) ≤ 1
  count-one x = ground arith

  pub count-other : (x : A) → q x ≡ false → count q (x ∷ []) ≡ 0
  count-other x h = ground arith

  -- Rows that `q` does not select are deleted, updated or inserted.
  pub filter-filter_other :
      (p : A → Bool) (xs : List A)
      → ((x : A) → p x ≡ true → q x ≡ false)
      → filter q (filter (λ x. not (p x)) xs) ≡ filter q xs
  filter-filter_other p [] h = refl
  filter-filter_other p (x ∷ xs) h = ground (arith, filter-filter_other p xs h, h x)

  pub filter-update_other :
      (p : A → Bool) (f : A → A) (xs : List A)
      → ((x : A) → p x ≡ true → q x ≡ false)
      → ((x : A) → q (f x) ≡ q x)
      → filter q (update p f xs) ≡ filter q xs
  filter-update_other p f [] h k = refl
  filter-update_other p f (x ∷ xs) h k = ground (arith, filter-update_other p f xs h k, h x, k x)

  pub filter-insert_other :
      (xs : List A) (x : A) → q x ≡ false → filter q (xs ++ x ∷ []) ≡ filter q xs
  filter-insert_other [] x h = ground arith
  filter-insert_other (y ∷ xs) x h = ground (arith, filter-insert_other xs x h)

  kept-all : (xs : List A) → count q xs ≡ 0 → filter (λ x. not (q x)) xs ≡ xs
  kept-all [] h = refl
  kept-all (x ∷ xs) h = ground (arith, kept-all xs)

  pub find-append : (xs ys : List A) (x : A) → find q xs ≡ some x → find q (xs ++ ys) ≡ some x
  find-append [] ys x h = ground arith
  find-append (y ∷ xs) ys x h = ground (arith, find-append xs ys x)

  pub find-last :
      (xs : List A) (x : A) → count q xs ≡ 0 → q x ≡ true → find q (xs ++ x ∷ []) ≡ some x
  find-last [] x h k = ground arith
  find-last (y ∷ xs) x h k = ground (arith, find-last xs x)

  pub find-filter :
      (p : A → Bool) (xs : List A)
      → ((x : A) → q x ≡ true → p x ≡ true)
      → find q (filter p xs) ≡ find q xs
  find-filter p [] h = refl
  find-filter p (x ∷ xs) h = ground (arith, find-filter p xs h, h x)

module _ {ℓ} {A : Type ℓ} (p q : A → Bool) where
  -- The only row that is deleted is one that `q` does not select.
  pub filter-filter_one :
      (xs : List A) (y : A)
      → find p xs ≡ some y
      → q y ≡ false
      → count p xs ≤ 1
      → filter q (filter (λ x. not (p x)) xs) ≡ filter q xs
  filter-filter_one [] y h k l = ground arith
  filter-filter_one (x ∷ xs) y h k l = ground (arith, filter-filter_one xs y, kept-all p xs)

module _ {ℓ κ} {A : Type ℓ} (P : A → Type κ) where
  pub All-filter : (p : A → Bool) (xs : List A) → All P xs → All P (filter p xs)
  All-filter p [] h = tt
  All-filter p (x ∷ xs) (hx, h) = elim (Bool-cases (p x)) [
    | inl e ↦ rw e (hx, All-filter p xs h)
    | inr e ↦ rw e (All-filter p xs h)
  ]

  pub All-update :
      (p : A → Bool) (f : A → A) (xs : List A)
      → ((x : A) → P x → P (f x))
      → All P xs
      → All P (update p f xs)
  All-update p f [] k h = tt
  All-update p f (x ∷ xs) k (hx, h) = elim (Bool-cases (p x)) [
    | inl e ↦ rw e (k x hx, All-update p f xs k h)
    | inr e ↦ rw e (hx, All-update p f xs k h)
  ]

  -- What is found is a row.
  pub chosen-holds :
      (b : Bool) (x y : A) (o : Option A)
      → P x
      → (o ≡ some y → P y)
      → (if b then some x else o) ≡ some y
      → P y
  chosen-holds true x y o h k e = subst P (ground (arith, e)) h
  chosen-holds false x y o h k e = k e

  pub find-All : (p : A → Bool) (xs : List A) (x : A) → All P xs → find p xs ≡ some x → P x
  find-All p [] x h e = ground (arith, e)
  find-All p (y ∷ xs) x (hy, h) e = chosen-holds (p y) y x (find p xs) hy (find-All p xs x h) e
