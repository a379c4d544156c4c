-- ===== src/Service/Delivery/Left.antt =====
-- The attempts that are left to the rows of the queue, which a change of one row lowers.
use smmail.Prelude.{
  ℕ, ◌+◌, ◌-◌, ◌*◌, ◌≤◌, ◌≡◌, refl, sym, subst, inl, inr, true, eqb_ℤ, eqb_ℤ_iff, eqb_ℤ_refl, List,
  [], ◌∷◌, count, any, All, Bool-cases, if◌then◌else◌, arith,
}
use smmail.Models.{QueueItem, is_pending}
use smmail.Service.Delivery.Transitions.{update_own}
use smmail.Service.Delivery.Evolution.{AllEvolve}
use smmail.Service.Delivery.Fresh.{IsFresh}

-- The attempts that are left to a row: one more is made even after four.
abbrev pub left : QueueItem → ℕ
left q = if is_pending q.status then 1 + (4 - q.attempts) else 0

abbrev pub total_left : List QueueItem → ℕ
total_left [] = 0
total_left (q ∷ rows) = left q + total_left rows

pub total_left-le :
    (rows : List QueueItem)
    → total_left rows ≤ 5 * count (λ (q : QueueItem). is_pending q.status) rows
total_left-le [] = omega arith
total_left-le (q ∷ rows) = ground (arith, total_left-le rows)

abbrev pub Present : List QueueItem → QueueItem → Type 0
Present rows item = any (λ q. eqb_ℤ q.id item.id) rows ≡ true

module _ (item : QueueItem) (f : QueueItem → QueueItem) (d : ℕ)
    (cheaper : left (f item) + d ≤ left item) where
  moved_left :
      (x : QueueItem)
      → (x.id ≡ item.id → x ≡ item)
      → eqb_ℤ x.id item.id ≡ true
      → left (f x) + d ≤ left x
  moved_left x h e =
      subst (λ (q : QueueItem). left (f q) + d ≤ left q) (sym (h ((eqb_ℤ_iff x.id item.id).0 e)))
        cheaper

  total-update-le :
      (rows : List QueueItem)
      → IsFresh rows item
      → total_left (update_own item f rows) ≤ total_left rows
  total-update-le [] h = omega arith
  total-update-le (x ∷ xs) (p, (h, hs)) = elim (Bool-cases (eqb_ℤ x.id item.id)) [
    | inl e ↦ rw e (omega (arith, moved_left x h e, total-update-le xs (p, hs)))
    | inr e ↦ rw e (omega (arith, total-update-le xs (p, hs)))
  ]

  pub total-update :
      (rows : List QueueItem)
      → IsFresh rows item
      → Present rows item
      → total_left (update_own item f rows) + d ≤ total_left rows
  total-update [] h there = absurd (cc)
  total-update (x ∷ xs) (p, (h, hs)) there = elim (Bool-cases (eqb_ℤ x.id item.id)) [
    | inl e ↦ rw e (omega (arith, moved_left x h e, total-update-le xs (p, hs)))
    | inr e ↦ rw e (omega (arith, total-update xs (p, hs) (rw e at there)))
  ]

Present-AllEvolve :
    (item : QueueItem) (rows rows' : List QueueItem)
    → AllEvolve rows rows'
    → Present rows item
    → Present rows' item
Present-AllEvolve item [] [] h there = there
Present-AllEvolve item [] (y ∷ ys) h there = absurd h
Present-AllEvolve item (x ∷ xs) [] h there = absurd h
Present-AllEvolve item (x ∷ xs) (y ∷ ys) (h, hs) there = elim (Bool-cases (eqb_ℤ x.id item.id)) [
  | inl e ↦ rw (h.same_id, e) refl
  | inr e ↦ rw (h.same_id, e) (Present-AllEvolve item xs ys hs (rw e at there))
]

Present-cons :
    (x : QueueItem) (xs ys : List QueueItem) → All (Present xs) ys → All (Present (x ∷ xs)) ys
Present-cons x xs [] h = tt
Present-cons x xs (y ∷ ys) (h, hs) = (ground (arith, h), Present-cons x xs ys hs)

pub Present-self : (rows : List QueueItem) → All (Present rows) rows
Present-self [] = tt
Present-self (x ∷ xs) = (rw (eqb_ℤ_refl x.id) refl, Present-cons x xs xs (Present-self xs))

pub All-Present-AllEvolve :
    (rows rows' batch : List QueueItem)
    → AllEvolve rows rows'
    → All (Present rows) batch
    → All (Present rows') batch
All-Present-AllEvolve rows rows' [] h there = tt
All-Present-AllEvolve rows rows' (x ∷ batch) h (there, rest) =
    (Present-AllEvolve x rows rows' h there, All-Present-AllEvolve rows rows' batch h rest)
