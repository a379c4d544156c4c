-- ===== src/Service/Delivery/Rotation.antt =====
-- The rotation among the accounts of a user.
use smmail.Prelude.{
  ℕ, zero, suc, ◌+◌, ◌%◌, ◌<◌, ◌≤◌, length-append, ◌≡◌, refl, ◌∙◌, ap, sym, subst, List, [], ◌∷◌,
  ◌++◌, ℤ, eqb_ℤ, eqb_ℤ_refl, Bool-cases, inl, inr, length, arith,
}
use native.Mathlib.Nat.{mod-lt, mod-eq_of_lt, mod-add-mod}
use mathlib.Core.List.{Perm, perm_middle}
use mathlib.Core.List.Perm
use smmail.Models.{UpstreamSmtp}
use smmail.Runtime.{World, ok}
use smmail.Service.Delivery.{rr_lookup, rr_store, in_range, next_rr, pick, others, rotated}

rr_lookup-rr_store :
    (user_id : ℤ) (i : ℕ) (m : List (ℤ × ℕ)) → rr_lookup user_id (rr_store user_id i m) ≡ i
unfolding rr_lookup rr_store
rr_lookup-rr_store user_id i [] = rw (eqb_ℤ_refl user_id) refl
rr_lookup-rr_store user_id i ((k, j) ∷ rest) = elim (Bool-cases (eqb_ℤ k user_id)) [
  | inl e ↦ rw (e, e) refl
  | inr e ↦ rw (e, e) (rr_lookup-rr_store user_id i rest)
]

pub in_range-lt : (n i : ℕ) → 0 < n → in_range n i < n
in_range-lt n i h = ground arith

in_range-same : (n i : ℕ) → i < n → in_range n i ≡ i
in_range-same n i h = ground arith

-- The world after `k` calls for a user with `n` accounts.
abbrev pub after_turns : ℤ → ℕ → ℕ → World → World
after_turns user_id n zero w = w
after_turns user_id n (suc k) w = (next_rr user_id n (after_turns user_id n k w)).1

abbrev pub turn : ℤ → ℕ → World → ℕ
turn user_id n w = in_range n (rr_lookup user_id w.rr_index)

turn-next_rr :
    (user_id : ℤ) (n : ℕ) (w : World)
    → 0 < n
    → turn user_id n (next_rr user_id n w).1 ≡ (turn user_id n w + 1) % n
unfolding next_rr
turn-next_rr user_id n w h =
    ap (in_range n) (rr_lookup-rr_store user_id ((turn user_id n w + 1) % n) w.rr_index)
    ∙ in_range-same n ((turn user_id n w + 1) % n) (mod-lt (turn user_id n w + 1) h)

turn-after_turns :
    (user_id : ℤ) (n k : ℕ) (w : World)
    → 0 < n
    → turn user_id n (after_turns user_id n k w) ≡ (turn user_id n w + k) % n
turn-after_turns user_id n zero w h =
    sym (mod-eq_of_lt (in_range-lt n (rr_lookup user_id w.rr_index) h))
    ∙ ap (λ (i : ℕ). i % n) (omega arith)
turn-after_turns user_id n (suc k) w h =
    turn-next_rr user_id n (after_turns user_id n k w) h
    ∙ ap (λ (i : ℕ). (i + 1) % n) (turn-after_turns user_id n k w h)
    ∙ mod-add-mod (turn user_id n w + k) n 1
    ∙ ap (λ (i : ℕ). i % n) (omega arith)

-- The `k`th call of `nextRR` after the first gives the index `k` places further around the `n`
-- accounts than the first, if there is an account.
pub next_rr-turns :
    (user_id : ℤ) (n k : ℕ) (w : World)
    → 0 < n
    → (next_rr user_id n (after_turns user_id n k w)).0 ≡ ok ((turn user_id n w + k) % n)
unfolding next_rr
next_rr-turns user_id n k w h = ap (λ (i : ℕ). ok i) (turn-after_turns user_id n k w h)

others-past : (i idx : ℕ) (accs : List UpstreamSmtp) → idx < i → others i idx accs ≡ accs
others-past i idx [] h = refl
others-past i idx (acc ∷ rest) h = ground (arith, others-past (i + 1) idx rest)

others-skip :
    (i idx : ℕ) (acc : UpstreamSmtp) (rest : List UpstreamSmtp)
    → idx ≡ i
    → others i idx (acc ∷ rest) ≡ rest
others-skip i idx acc rest h = ground (arith, others-past (i + 1) idx rest)

others-keep :
    (i idx : ℕ) (acc : UpstreamSmtp) (rest : List UpstreamSmtp)
    → i < idx
    → others i idx (acc ∷ rest) ≡ acc ∷ others (i + 1) idx rest
others-keep i idx acc rest h = ground arith

others-Perm :
    (i j idx : ℕ) (accs : List UpstreamSmtp)
    → idx ≡ i + j
    → j < length accs
    → Perm (pick j accs ++ others i idx accs) accs
others-Perm i j idx [] e h = absurd (omega arith)
others-Perm i zero idx (acc ∷ rest) e h =
    subst (λ (x : List UpstreamSmtp). Perm (acc ∷ x) (acc ∷ rest))
      (sym (others-skip i idx acc rest (omega arith))) (Perm.refl (acc ∷ rest))
others-Perm i (suc j) idx (acc ∷ rest) e h =
    subst (λ (x : List UpstreamSmtp). Perm (pick j rest ++ x) (acc ∷ rest))
      (sym (others-keep i idx acc rest (omega arith)))
      (Perm.trans (perm_middle (pick j rest) (others (i + 1) idx rest))
        (Perm.cons acc (others-Perm (i + 1) j idx rest (omega arith) (omega arith))))

others-length-le :
    (i j idx : ℕ) (accs : List UpstreamSmtp)
    → idx ≡ i + j
    → length (pick j accs ++ others i idx accs) ≤ length accs
others-length-le i j idx [] e = omega arith
others-length-le i zero idx (acc ∷ rest) e =
    rw (others-skip i idx acc rest (omega (arith, e))) (omega arith)
others-length-le i (suc j) idx (acc ∷ rest) e = rw (others-keep i idx acc rest (omega (arith, e))) (
    omega (
      arith,
      others-length-le (i + 1) j idx rest (omega (arith, e)),
      length-append (pick j rest) (acc ∷ others (i + 1) idx rest),
      length-append (pick j rest) (others (i + 1) idx rest),
    ))

pub length-rotated-le :
    (idx : ℕ) (accs : List UpstreamSmtp) → length (rotated idx accs) ≤ length accs
length-rotated-le idx accs = others-length-le 0 idx idx accs (omega arith)

-- With rotation, every account is in the list of those that are tried as often as it is assigned.
pub rotated-Perm :
    (idx : ℕ) (accs : List UpstreamSmtp) → idx < length accs → Perm (rotated idx accs) accs
rotated-Perm idx accs h = others-Perm 0 idx idx accs (omega arith) h
