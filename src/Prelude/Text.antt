-- ===== src/Prelude/Text.antt =====
-- Go strings are sequences of bytes. The functions of package strings that the program calls are
-- written for ASCII text: outside it `strings.TrimSpace` knows more white space, and
-- `strings.ToLower` more letters.
use Prim.Native.Nat.{ℕ, zero, suc, ◌+◌, ◌/◌, ◌%◌}
use Prim.Native.Char.{code}
use Prim.Native.String.{String}
use mathlib.Core.Path.{◌≡◌, refl}
use mathlib.Core.Logic.{◌↔◌, inl, inr}
use mathlib.Core.Bool.{Bool, true, false, ◌&&◌, ◌||◌}
use mathlib.Core.List.{List, [], ◌∷◌, ◌++◌, map, reverse, append-nil, append_assoc}
use native.Mathlib.Omega.{arith}
use smmail.Prelude.Int.{ℤ, pos, negsuc}
use smmail.Prelude.Tests.{ltb, leb, ◌==◌, if◌then◌else◌, Bool-cases}
use smmail.Prelude.Lists.{All, All-reverse}

abbrev pub Bytes : Type 0
Bytes = List ℕ

-- The code points of a literal; these are its bytes, since the program's literals are ASCII.
abbrev pub codes : String → Bytes
codes String.[] = []
codes (String.◌∷◌ c s) = code c ∷ codes s

abbrev pub eqb : Bytes → Bytes → Bool
eqb [] [] = true
eqb [] (d ∷ t) = false
eqb (c ∷ s) [] = false
eqb (c ∷ s) (d ∷ t) = if c == d then eqb s t else false

pub eqb_iff : (s t : Bytes) → (eqb s t ≡ true) ↔ (s ≡ t)
eqb_iff [] [] = ground arith
eqb_iff [] (d ∷ t) = ground arith
eqb_iff (c ∷ s) [] = ground arith
eqb_iff (c ∷ s) (d ∷ t) = ground (arith, eqb_iff s t)

pub eqb_refl : (s : Bytes) → eqb s s ≡ true
eqb_refl s = (eqb_iff s s).1 refl

-- The order of SQLite's BINARY collation.
abbrev pub leb_text : Bytes → Bytes → Bool
leb_text [] t = true
leb_text (c ∷ s) [] = false
leb_text (c ∷ s) (d ∷ t) = if ltb c d then true else if c == d then leb_text s t else false

-- `s == ""`.
abbrev pub is_empty : Bytes → Bool
is_empty [] = true
is_empty (c ∷ s) = false

-- Tab, line feed, vertical tab, form feed, carriage return and blank.
abbrev pub is_space : ℕ → Bool
is_space c = (leb 9 c && leb c 13) || c == 32

pub trim_left : Bytes → Bytes
trim_left [] = []
trim_left (c ∷ s) = if is_space c then trim_left s else c ∷ s

-- `strings.TrimSpace`.
unfoldable pub trim_space : Bytes → Bytes
unfolding trim_left
trim_space s = reverse (trim_left (reverse (trim_left s)))

abbrev pub to_lower_byte : ℕ → ℕ
to_lower_byte c = if leb b'A' c && leb c b'Z' then c + 32 else c

-- `strings.ToLower`.
unfoldable pub to_lower : Bytes → Bytes
to_lower = map to_lower_byte

cut : ℕ → Bytes → Bytes → List Bytes
cut sep cur [] = cur ∷ []
cut sep cur (c ∷ s) = elim (c == sep) [
  | true ↦ cur ∷ cut sep [] s
  | false ↦ cut sep (cur ++ c ∷ []) s
]

-- `strings.Split` at a separator of one byte.
unfoldable pub split : Bytes → ℕ → List Bytes
unfolding cut
split s sep = cut sep [] s

digits : ℕ → ℕ → Bytes → Bytes
digits zero n out = out
digits (suc fuel) n out =
    let more = digits fuel (n / 10) ((b'0' + n % 10) ∷ out) in
    if ltb n 10 then (b'0' + n) ∷ out else more

-- `%d` of package fmt. A number has at most as many digits as its successor counts.
unfoldable pub decimal : ℤ → Bytes
unfolding digits
decimal (pos n) = digits (suc n) n []
decimal (negsuc n) = b'-' ∷ digits (suc (suc n)) (suc n) []

module _ {κ} (P : ℕ → Type κ) where
  trim_left-All : (s : Bytes) → All P s → All P (trim_left s)
  unfolding trim_left
  trim_left-All [] h = tt
  trim_left-All (c ∷ s) (hc, h) = elim (Bool-cases (is_space c)) [
    | inl blank ↦ rw blank (trim_left-All s h)
    | inr solid ↦ rw solid (hc, h)
  ]

  -- What holds of every byte of a text holds of every byte of the trimmed text.
  pub trim_space-All : (s : Bytes) → All P s → All P (trim_space s)
  unfolding trim_space
  trim_space-All s h =
      All-reverse P (trim_left (reverse (trim_left s)))
        (trim_left-All (reverse (trim_left s)) (All-reverse P (trim_left s) (trim_left-All s h)))

cut-append :
    (sep : ℕ) (cur s rest : Bytes)
    → All (λ c. (c == sep) ≡ false) s
    → cut sep cur (s ++ sep ∷ rest) ≡ (cur ++ s) ∷ cut sep [] rest
unfolding cut
cut-append sep cur [] rest h = ground (arith, append-nil cur)
cut-append sep cur (c ∷ s) rest (hc, h) =
    ground (arith, hc, cut-append sep (cur ++ c ∷ []) s rest h, append_assoc cur (c ∷ []) s)

cut-end :
    (sep : ℕ) (cur s : Bytes) → All (λ c. (c == sep) ≡ false) s → cut sep cur s ≡ (cur ++ s) ∷ []
unfolding cut
cut-end sep cur [] h = ground (arith, append-nil cur)
cut-end sep cur (c ∷ s) (hc, h) =
    ground (arith, hc, cut-end sep (cur ++ c ∷ []) s h, append_assoc cur (c ∷ []) s)

-- `strings.Split` takes the parts between separators.
pub split-append :
    (s rest : Bytes) (sep : ℕ)
    → All (λ c. (c == sep) ≡ false) s
    → split (s ++ sep ∷ rest) sep ≡ s ∷ split rest sep
unfolding split
split-append s rest sep h = cut-append sep [] s rest h

pub split-end : (s : Bytes) (sep : ℕ) → All (λ c. (c == sep) ≡ false) s → split s sep ≡ s ∷ []
unfolding split
split-end s sep h = cut-end sep [] s h
