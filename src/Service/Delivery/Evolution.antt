-- ===== src/Service/Delivery/Evolution.antt =====
-- How the rows of the queue may change, one by one.
use smmail.Prelude.{
  ℕ, zero, suc, ◌≤◌, ◌≡◌, ◌≢◌, refl, sym, ap, ◌∙◌, ◌⊎◌, inl, inr, Bool, false, List, [], ◌∷◌,
  filter, take, All, All-filter, All-take, Bool-cases, arith,
}
use smmail.Models.{QueueItem, QueueStatus, is_pending}

-- A row later on: the mail is the same, a row that is settled is as it was, the attempts do not fall,
-- and a row has failed only after five of them.
pub record Evolves (q q' : QueueItem) : Type 0 where
  pub same_id : q'.id ≡ q.id
  pub same_user : q'.user_id ≡ q.user_id
  pub same_from : q'.mail_from ≡ q.mail_from
  pub same_rcpt : q'.rcpt_to ≡ q.rcpt_to
  pub same_body : q'.body ≡ q.body
  pub settled : is_pending q.status ≡ false → q' ≡ q
  pub attempts_grow : q.attempts ≤ q'.attempts
  pub failed_late : q'.status ≡ QueueStatus.failed → (q' ≡ q) ⊎ (5 ≤ q'.attempts)

pub Evolves-refl : (q : QueueItem) → Evolves q q
Evolves-refl q = record {
  same_id = refl;
  same_user = refl;
  same_from = refl;
  same_rcpt = refl;
  same_body = refl;
  settled = λ h. refl;
  attempts_grow = omega arith;
  failed_late = λ h. inl refl;
}

pub Evolves-trans : (a b c : QueueItem) → Evolves a b → Evolves b c → Evolves a c
Evolves-trans a b c p r = record {
  same_id = r.same_id ∙ p.same_id;
  same_user = r.same_user ∙ p.same_user;
  same_from = r.same_from ∙ p.same_from;
  same_rcpt = r.same_rcpt ∙ p.same_rcpt;
  same_body = r.same_body ∙ p.same_body;
  settled =
      λ h. r.settled (ap (λ (q : QueueItem). is_pending q.status) (p.settled h) ∙ h) ∙ p.settled h;
  attempts_grow = omega (arith, p.attempts_grow, r.attempts_grow);
  failed_late = λ h. elim (r.failed_late h) [
    | inr late ↦ inr late
    | inl same ↦ elim (p.failed_late (ap (λ (q : QueueItem). q.status) (sym same) ∙ h)) [
      | inl before ↦ inl (same ∙ before)
      | inr late ↦ inr (omega (arith, late, r.attempts_grow))
    ]
  ];
}

-- Row by row.
abbrev pub AllEvolve : List QueueItem → List QueueItem → Type 0
AllEvolve [] [] = Unit
AllEvolve [] (y ∷ ys) = ⊥
AllEvolve (x ∷ xs) [] = ⊥
AllEvolve (x ∷ xs) (y ∷ ys) = Evolves x y × AllEvolve xs ys

pub AllEvolve-refl : (rows : List QueueItem) → AllEvolve rows rows
AllEvolve-refl [] = tt
AllEvolve-refl (x ∷ xs) = (Evolves-refl x, AllEvolve-refl xs)

pub AllEvolve-trans : (a b c : List QueueItem) → AllEvolve a b → AllEvolve b c → AllEvolve a c
AllEvolve-trans [] [] [] p r = tt
AllEvolve-trans [] [] (z ∷ c) p r = r
AllEvolve-trans [] (y ∷ b) c p r = absurd p
AllEvolve-trans (x ∷ a) [] c p r = absurd p
AllEvolve-trans (x ∷ a) (y ∷ b) [] p r = r
AllEvolve-trans (x ∷ a) (y ∷ b) (z ∷ c) (p, ps) (r, rs) =
    (Evolves-trans x y z p r, AllEvolve-trans a b c ps rs)

-- The ids differ.
abbrev pub Apart : List QueueItem → Type 0
Apart [] = Unit
Apart (x ∷ xs) = All (λ (y : QueueItem). y.id ≢ x.id) xs × Apart xs

ids_apart :
    (x : QueueItem) (xs ys : List QueueItem)
    → AllEvolve xs ys
    → All (λ (y : QueueItem). y.id ≢ x.id) xs
    → (x' : QueueItem) → x'.id ≡ x.id
    → All (λ (y : QueueItem). y.id ≢ x'.id) ys
ids_apart x [] [] p h x' e = tt
ids_apart x [] (y ∷ ys) p h x' e = absurd p
ids_apart x (y ∷ xs) [] p h x' e = absurd p
ids_apart x (y ∷ xs) (z ∷ ys) (p, ps) (h, hs) x' e =
    ((λ k. h (sym p.same_id ∙ k ∙ e)), ids_apart x xs ys ps hs x' e)

pub AllEvolve-Apart : (xs ys : List QueueItem) → AllEvolve xs ys → Apart xs → Apart ys
AllEvolve-Apart [] [] p h = tt
AllEvolve-Apart [] (y ∷ ys) p h = absurd p
AllEvolve-Apart (x ∷ xs) [] p h = absurd p
AllEvolve-Apart (x ∷ xs) (y ∷ ys) (p, ps) (h, hs) =
    (ids_apart x xs ys ps h y p.same_id, AllEvolve-Apart xs ys ps hs)

pub Apart-filter : (p : QueueItem → Bool) (xs : List QueueItem) → Apart xs → Apart (filter p xs)
Apart-filter p [] h = tt
Apart-filter p (x ∷ xs) (h, hs) = elim (Bool-cases (p x)) [
  | inl e ↦ rw e (All-filter (λ (y : QueueItem). y.id ≢ x.id) p xs h, Apart-filter p xs hs)
  | inr e ↦ rw e (Apart-filter p xs hs)
]

pub Apart-take : (n : ℕ) (xs : List QueueItem) → Apart xs → Apart (take n xs)
Apart-take zero xs h = tt
Apart-take (suc n) [] h = tt
Apart-take (suc n) (x ∷ xs) (h, hs) =
    (All-take (λ (y : QueueItem). y.id ≢ x.id) n xs h, Apart-take n xs hs)
