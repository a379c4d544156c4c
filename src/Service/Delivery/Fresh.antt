-- ===== src/Service/Delivery/Fresh.antt =====
-- A batch holds copies of the rows, so that a row and its copy have to agree until the copy is
-- processed.
use smmail.Prelude.{
  ℕ, ◌≤◌, ◌≡◌, ◌≢◌, refl, sym, subst, ◌∙◌, inl, inr, true, eqb_ℤ, eqb_ℤ_iff, List, [], ◌∷◌, filter,
  All, All-map, Bool-cases, arith,
}
use smmail.Models.{QueueItem, QueueStatus, is_pending}
use smmail.Runtime.{Env}
use smmail.Repo.Queue.{is_due}
use smmail.Service.Delivery.Transitions.{update_own}
use smmail.Service.Delivery.Round.{Transition, sent, deferred, retried, failed, IsRound}
use smmail.Service.Delivery.Evolution.{Evolves, Evolves-refl, AllEvolve, AllEvolve-refl, Apart}

-- A row of the item's id is the item.
abbrev pub IsCopy : List QueueItem → QueueItem → Type 0
IsCopy rows item = All (λ (q : QueueItem). q.id ≡ item.id → q ≡ item) rows

abbrev pub IsFresh : List QueueItem → QueueItem → Type 0
IsFresh rows item = (is_pending item.status ≡ true) × IsCopy rows item

Transition-id :
    (env : Env) (item : QueueItem) (f : QueueItem → QueueItem)
    → Transition env item f
    → (q : QueueItem) → (f q).id ≡ q.id
Transition-id env item _ (sent v now h) q = refl
Transition-id env item _ (deferred reason wait now) q = refl
Transition-id env item _ (retried reason now) q = refl
Transition-id env item _ (failed e v now h k) q = refl

-- A pending row may change everything but its id, its user, its addresses and its body.
pending-Evolves :
    (item q : QueueItem)
    → is_pending item.status ≡ true
    → q.id ≡ item.id
    → q.user_id ≡ item.user_id
    → q.mail_from ≡ item.mail_from
    → q.rcpt_to ≡ item.rcpt_to
    → q.body ≡ item.body
    → item.attempts ≤ q.attempts
    → (q.status ≡ QueueStatus.failed → 5 ≤ q.attempts)
    → Evolves item q
pending-Evolves item q p id user from rcpt body grow late = record {
  same_id = id;
  same_user = user;
  same_from = from;
  same_rcpt = rcpt;
  same_body = body;
  settled = λ h. absurd (cc);
  attempts_grow = grow;
  failed_late = λ h. inr (late h);
}

Transition-Evolves :
    (env : Env) (item : QueueItem) (f : QueueItem → QueueItem)
    → Transition env item f
    → is_pending item.status ≡ true
    → Evolves item (f item)
Transition-Evolves env item _ (sent v now h) p =
    pending-Evolves item _ p refl refl refl refl refl (omega arith) (λ e. absurd (cc))
Transition-Evolves env item _ (deferred reason wait now) p =
    pending-Evolves item _ p refl refl refl refl refl (omega arith)
      (λ e. absurd (ground (arith, p, e)))
Transition-Evolves env item _ (retried reason now) p =
    pending-Evolves item _ p refl refl refl refl refl (omega arith)
      (λ e. absurd (ground (arith, p, e)))
Transition-Evolves env item _ (failed e v now h k) p =
    pending-Evolves item _ p refl refl refl refl refl (omega arith) (λ h. omega (arith, k))

module _ (env : Env) (item : QueueItem) (f : QueueItem → QueueItem)
    (t : Transition env item f) where
  update_own-AllEvolve :
      (rows : List QueueItem) → IsFresh rows item → AllEvolve rows (update_own item f rows)
  update_own-AllEvolve [] h = tt
  update_own-AllEvolve (x ∷ xs) (p, (h, hs)) = elim (Bool-cases (eqb_ℤ x.id item.id)) [
    | inl e ↦ rw e (
        let same = h ((eqb_ℤ_iff x.id item.id).0 e) in
        (
          subst (λ (q : QueueItem). Evolves q (f q)) (sym same) (Transition-Evolves env item f t p),
          update_own-AllEvolve xs (p, hs),
        ))
    | inr e ↦ rw e (Evolves-refl x, update_own-AllEvolve xs (p, hs))
  ]

  -- The copies of other rows.
  update_own-IsCopy :
      (rows : List QueueItem) (other : QueueItem)
      → other.id ≢ item.id
      → IsCopy rows other
      → IsCopy (update_own item f rows) other
  update_own-IsCopy [] other apart h = tt
  update_own-IsCopy (x ∷ xs) other apart (h, hs) = elim (Bool-cases (eqb_ℤ x.id item.id)) [
    | inl e ↦ rw e (
      (λ k. absurd (apart (sym k ∙ Transition-id env item f t x ∙ (eqb_ℤ_iff x.id item.id).0 e))),
      update_own-IsCopy xs other apart hs,
    )
    | inr e ↦ rw e (h, update_own-IsCopy xs other apart hs)
  ]

module _ (env : Env) (item : QueueItem) (rows rows' : List QueueItem) where
  pub IsRound-AllEvolve : IsRound env item rows rows' → IsFresh rows item → AllEvolve rows rows'
  IsRound-AllEvolve (inl same) h = subst (AllEvolve rows) (sym same) (AllEvolve-refl rows)
  IsRound-AllEvolve (inr (f, t, moved)) h =
      subst (AllEvolve rows) (sym moved) (update_own-AllEvolve env item f t rows h)

  pub IsRound-IsFresh :
      (rest : List QueueItem)
      → IsRound env item rows rows'
      → All (λ (o : QueueItem). o.id ≢ item.id) rest
      → All (IsFresh rows) rest
      → All (IsFresh rows') rest
  IsRound-IsFresh rest (inl same) apart h =
      subst (λ (r : List QueueItem). All (IsFresh r) rest) (sym same) h
  IsRound-IsFresh [] (inr moved) apart h = tt
  IsRound-IsFresh (o ∷ rest) (inr (f, t, moved)) (a, apart) ((p, c), h) = (
    (
      p,
      subst (λ (r : List QueueItem). IsCopy r o) (sym moved)
          (update_own-IsCopy env item f t rows o a c),
    ),
    IsRound-IsFresh rest (inr (f, t, moved)) apart h,
  )

copies_behind :
    (x : QueueItem) (xs ys : List QueueItem)
    → All (λ (y : QueueItem). y.id ≢ x.id) ys
    → All (IsCopy xs) ys
    → All (IsCopy (x ∷ xs)) ys
copies_behind x xs [] a h = tt
copies_behind x xs (y ∷ ys) (a, later) (h, hs) =
    (((λ k. absurd (a (sym k))), h), copies_behind x xs ys later hs)

pub Apart-IsCopy : (rows : List QueueItem) → Apart rows → All (IsCopy rows) rows
Apart-IsCopy [] h = tt
Apart-IsCopy (x ∷ xs) (h, hs) = (
  ((λ k. refl), All-map xs (λ q a k. absurd (a k)) h),
  copies_behind x xs xs h (Apart-IsCopy xs hs),
)

pub due_IsFresh :
    (now : ℕ) (rows ys : List QueueItem)
    → All (IsCopy rows) ys
    → All (IsFresh rows) (filter (is_due now) ys)
due_IsFresh now rows [] h = tt
due_IsFresh now rows (y ∷ ys) (h, hs) = elim (Bool-cases (is_due now y)) [
  | inl e ↦ rw e ((ground (arith, e), h), due_IsFresh now rows ys hs)
  | inr e ↦ rw e (due_IsFresh now rows ys hs)
]
