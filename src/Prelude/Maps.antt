-- ===== src/Prelude/Maps.antt =====
-- Go maps with keys of type string, as association lists.
use mathlib.Core.Path.{◌≡◌, refl}
use mathlib.Core.Logic.{inl, inr}
use mathlib.Core.Bool.{false}
use mathlib.Core.List.{List, [], ◌∷◌}
use mathlib.Core.Option.{Option, none, some}
use smmail.Prelude.Tests.{if◌then◌else◌, Bool-cases}
use smmail.Prelude.Text.{Bytes, eqb, eqb_refl, eqb_iff}
use smmail.Prelude.Lists.{All}
use smmail.Prelude.Rows.{chosen-holds}
use native.Mathlib.Omega.{arith}

-- `m[k]`, where `none` is the zero value of a pointer or the answer `false`.
unfoldable pub get_key {ℓ} : {V : Type ℓ} → Bytes → List (Bytes × V) → Option V
get_key k [] = none
get_key k ((j, v) ∷ rest) = if eqb j k then some v else get_key k rest

-- `m[k] = v`.
unfoldable pub set_key {ℓ} : {V : Type ℓ} → Bytes → V → List (Bytes × V) → List (Bytes × V)
set_key k v [] = (k, v) ∷ []
set_key k v ((j, u) ∷ rest) = if eqb j k then (j, v) ∷ rest else (j, u) ∷ set_key k v rest

pub get_key-set_key_same {ℓ} :
    {V : Type ℓ} (k : Bytes) (v : V) (m : List (Bytes × V)) → get_key k (set_key k v m) ≡ some v
unfolding get_key set_key
get_key-set_key_same k v [] = rw (eqb_refl k) refl
get_key-set_key_same k v ((j, u) ∷ rest) = elim (Bool-cases (eqb j k)) [
  | inl e ↦ rw (e, e) refl
  | inr e ↦ rw (e, e) (get_key-set_key_same k v rest)
]

pub get_key-set_key_other {ℓ} :
    {V : Type ℓ} (k j : Bytes) (v : V) (m : List (Bytes × V))
    → eqb k j ≡ false
    → get_key j (set_key k v m) ≡ get_key j m
unfolding get_key set_key
get_key-set_key_other k j v [] h = rw h refl
get_key-set_key_other k j v ((i, u) ∷ rest) h =
    ground (arith, eqb_iff k j, eqb_iff i k, eqb_iff i j, get_key-set_key_other k j v rest)

module _ {ℓ κ} {V : Type ℓ} (P : V → Type κ) where
  pub get_key-All :
      (k : Bytes) (m : List (Bytes × V)) (v : V) → All (λ e. P e.1) m → get_key k m ≡ some v → P v
  unfolding get_key
  get_key-All k [] v h e = ground (arith, e)
  get_key-All k ((j, u) ∷ rest) v (hu, h) e =
      chosen-holds P (eqb j k) u v (get_key k rest) hu (get_key-All k rest v h) e

  pub set_key-All :
      (k : Bytes) (v : V) (m : List (Bytes × V))
      → P v
      → All (λ e. P e.1) m
      → All (λ e. P e.1) (set_key k v m)
  unfolding set_key
  set_key-All k v [] h hm = (h, tt)
  set_key-All k v ((j, u) ∷ rest) h (hu, hm) = elim (Bool-cases (eqb j k)) [
    | inl p ↦ rw p (h, hm)
    | inr p ↦ rw p (hu, set_key-All k v rest h hm)
  ]
